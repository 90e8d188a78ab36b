-- ===== src/ContextPlanner/Tests.antt =====
-- The planner at a concrete retrieval.
use Prim.Native.String
use Prim.Native.String.{String}
use text.Mathlib.Text.{◌==◌ as str_eq}
use dh_kit.Kit.{
  ℕ, ◌≡◌, refl, true, false, leb, none, List, [], ◌∷◌, map, arith, if◌then◌else◌, ok, err, not,
}
use dh_kit.ContextPlanner.{
  fast, WarningCode, lsp_unconfigured, ContextLedgerEntry, NormalizedRetrievalResult, Retrieval,
  ContextReport, Platform, World, dedupe_entries, ledger_entries, new_report, is_mentioned_file,
  inspect_context, cached_report,
}
use dh_kit.ContextPlanner.Sorting.{IsOrder}
use dh_kit.ContextPlanner.Ledger.{IsBestOf, dedupe_entries-IsBestOf}
use dh_kit.ContextPlanner.Cache.{inspect_context_again}

abbrev result_at : String → ℕ → NormalizedRetrievalResult ℕ
result_at path score = record {
  file_path = path;
  symbol_name = none;
  line_range = (1, 9);
  source_tool = "keyword_search";
  match_reason = "match";
  normalized_score = score;
}

abbrev found : Retrieval ℕ
found = record {
  results =
      result_at "a.ts" 3
      ∷ result_at "b.ts" 7
      ∷ result_at "a.ts" 5
      ∷ result_at "c.ts" 2
      ∷ result_at "d.ts" 1
      ∷ [];
  reduced_coverage = false;
  stop_reasons = [];
  graph_available = true;
}

abbrev toy : Platform ℕ
toy = record {
  at_least = λ a b. leb b a;
  one = 10;
  trim = λ text. text;
  number_text = λ n. "n";
  mentions = λ query. if str_eq query "see x.ts" then "x.ts" ∷ [] else [];
  strip_root = λ path. path;
  resolve = λ root path.
      if str_eq path ""
      then "/repo"
      else if str_eq path "../repo-b/x.ts"
      then "/repo-b/x.ts"
      else String.◌++◌ "/repo/" path;
  root = "/repo";
  exists = λ path. true;
  fingerprint = "w";
  retrieve = λ query. found;
  evidence_id = λ n. "e";
  ledger_id = "l";
  base64url = λ text. text;
  can_write = λ name. not (str_eq name "w:normal:long.json");
  write_error = λ name. "ENAMETOOLONG";
  now = "now";
}

toy-IsOrder : IsOrder toy.at_least
toy-IsOrder = record { total = λ a b h. ground arith; trans = λ a b c h k. ground arith }

abbrev scored : ContextLedgerEntry ℕ → String × ℕ
scored entry = (entry.file_path, entry.score)

abbrev shown : ContextReport ℕ → List String × ℕ × List WarningCode
shown report = (map (λ entry. entry.file_path) report.entries, report.skipped, report.warnings)

-- The duplicate with the higher score is kept.
best_entries :
    map scored (dedupe_entries toy (ledger_entries toy 0 found.results) 3)
    ≡ ("b.ts", 7) ∷ ("a.ts", 5) ∷ ("c.ts", 2) ∷ []
unfolding dedupe_entries
best_entries = refl

dedupe_entries-IsBestOf_example :
    IsBestOf toy 3
      (ledger_entries toy 0 found.results)
      (dedupe_entries toy (ledger_entries toy 0 found.results) 3)
dedupe_entries-IsBestOf_example =
    dedupe_entries-IsBestOf toy 3 (ledger_entries toy 0 found.results) toy-IsOrder

abbrev four : Retrieval ℕ
four = record {
  results = result_at "a.ts" 3 ∷ result_at "b.ts" 7 ∷ result_at "c.ts" 2 ∷ result_at "d.ts" 1 ∷ [];
  reduced_coverage = false;
  stop_reasons = [];
  graph_available = true;
}

-- A mention takes the place of the last result, and neither the count nor the warnings say so.
dropped_silently :
    shown (new_report toy "see x.ts" fast four)
    ≡ ("x.ts" ∷ "b.ts" ∷ "a.ts" ∷ "c.ts" ∷ [], 0, lsp_unconfigured ∷ [])
unfolding dedupe_entries
dropped_silently = refl

-- A file beside the root counts as one below it when its path starts with the root's.
sibling_mentioned : is_mentioned_file toy "../repo-b/x.ts" ≡ true
sibling_mentioned = refl

abbrev empty_world : World ℕ
empty_world = record { ledgers = []; rankings = [] }

inspect_context_again_example :
    (report : ContextReport ℕ) × ((inspect_context toy "see x.ts" none empty_world).0 ≡ ok report)
    × (inspect_context toy "see x.ts" none (inspect_context toy "see x.ts" none empty_world).1
        ≡ (ok (cached_report toy report), (inspect_context toy "see x.ts" none empty_world).1))
inspect_context_again_example =
    inspect_context_again toy toy "see x.ts" none empty_world refl refl refl refl refl

-- A query whose file has an overlong name throws with its ledger written, and so does it again.
overlong_name :
    let (result, world) = inspect_context toy "long" none empty_world in
    (result ≡ err "ENAMETOOLONG")
    × (world.rankings ≡ [])
    × (map (λ e. e.0) world.ledgers ≡ "l" ∷ [])
    × ((inspect_context toy "long" none world).0 ≡ err "ENAMETOOLONG")
unfolding inspect_context dedupe_entries
overlong_name = (refl, refl, refl, refl)

-- ===== src/ContextPlanner.antt =====
-- packages/runtime/src/context/context-planner.ts: which evidence of a retrieval goes into a context
-- ledger, and the cache of the reports.
pub mod Sorting
pub mod Ledger
pub mod Cache
mod Tests
use Prim.Native.String
use Prim.Native.String.{String}
use text.Mathlib.Text.{◌==◌ as str_eq, starts_with, find?}
use dh_kit.Kit.{
  ℕ, zero, suc, ◌+◌, ◌-◌, ltb, Bool, true, false, not, ◌&&◌, ◌||◌, Option, none, some, List, [],
  ◌∷◌, ◌++◌, map, length, take, is_empty_list, if◌then◌else◌, Result, ok, err, member, add, lookup,
  save,
}

pub data BudgetMode : Type 0 where
  fast normal deep : BudgetMode

pub data WarningCode : Type 0 where
  dependency_graph_unavailable lsp_unconfigured no_evidence reduced_scan_coverage scan_stopped
        truncated_context :
      WarningCode

pub data CacheStatus : Type 0 where
  hit miss : CacheStatus

-- A score is of the type `S`; of numbers only their order is used.
pub record ContextLedgerEntry (S : Type 0) : Type 0 where
  pub id : String
  pub file_path : String
  pub line_range : ℕ × ℕ
  pub reason : String
  pub score : S
  pub source : String
  pub symbol_name : Option String

pub record NormalizedRetrievalResult (S : Type 0) : Type 0 where
  pub file_path : String
  pub symbol_name : Option String
  pub line_range : ℕ × ℕ
  pub source_tool : String
  pub match_reason : String
  pub normalized_score : S

-- The parts of a retrieval that are read here.
pub record Retrieval (S : Type 0) : Type 0 where
  pub results : List (NormalizedRetrievalResult S)
  pub reduced_coverage : Bool
  pub stop_reasons : List String
  pub graph_available : Bool

pub record ContextReport (S : Type 0) : Type 0 where
  pub query : String
  pub ledger_id : String
  pub entries : List (ContextLedgerEntry S)
  pub included : ℕ
  pub skipped : ℕ
  pub warnings : List WarningCode
  pub cache_status : CacheStatus
  pub workspace_fingerprint : String
  pub generated_at : String

-- The order of the scores, and what comes from the language, the file system and the other packages: the
-- matches of the pattern for file names, `replace(/^\.?\//, "")`, `path.resolve`, `existsSync`, the
-- fingerprint of the workspace, the retrieval, the text of a number, the evidence's ids, the base64url text
-- of a text's bytes, whether a file of a name can be written to the cache's directory, which an overlong
-- name cannot, and the error of a write that fails.
pub record Platform (S : Type 0) : Type 0 where
  pub at_least : S → S → Bool
  pub one : S
  pub trim : String → String
  pub number_text : ℕ → String
  pub mentions : String → List String
  pub strip_root : String → String
  pub resolve : String → String → String
  pub root : String
  pub exists : String → Bool
  pub fingerprint : String
  pub retrieve : String → Retrieval S
  pub evidence_id : ℕ → String
  pub ledger_id : String
  pub base64url : String → String
  pub can_write : String → Bool
  pub write_error : String → String
  pub now : String

-- The files that are written: the ledgers by id and the rankings by file name.
pub record World (S : Type 0) : Type 0 where
  pub ledgers : List (String × ContextReport S)
  pub rankings : List (String × ContextReport S)

abbrev pub max_evidence_for_budget : BudgetMode → ℕ
max_evidence_for_budget fast = 4
max_evidence_for_budget deep = 24
max_evidence_for_budget normal = 12

abbrev pub budget_text : BudgetMode → String
budget_text fast = "fast"
budget_text normal = "normal"
budget_text deep = "deep"

abbrev pub includes : String → String → Bool
includes text part = elim (find? text part) [ none ↦ false | some _ ↦ true ]

abbrev pub normalize_source : String → String
normalize_source source_tool =
    if str_eq source_tool "symbol_search"
    then "symbol"
    else if str_eq source_tool "reference_search"
    then "reference"
    else if str_eq source_tool "graph_expand"
    then "graph"
    else if str_eq source_tool "lsp_diagnostics"
    then "lsp_diagnostics"
    else if includes source_tool "semantic"
    then "semantic"
    else if includes source_tool "keyword"
    then "keyword"
    else source_tool

module _ {S : Type 0} (platform : Platform S) where
  open platform use {
    at_least, one, trim, number_text, mentions, strip_root, resolve, root, exists, fingerprint,
    retrieve, evidence_id, ledger_id, base64url, can_write, write_error, now,
  }

  abbrev pub to_ledger_entry : ℕ → NormalizedRetrievalResult S → ContextLedgerEntry S
  to_ledger_entry n result = record {
    id = evidence_id n;
    file_path = result.file_path;
    line_range = result.line_range;
    reason = result.match_reason;
    score = result.normalized_score;
    source = normalize_source result.source_tool;
    symbol_name = result.symbol_name;
  }

  abbrev pub ledger_entries : ℕ → List (NormalizedRetrievalResult S) → List (ContextLedgerEntry S)
  ledger_entries n [] = []
  ledger_entries n (result ∷ results) = to_ledger_entry n result ∷ ledger_entries (n + 1) results

  abbrev pub mention_entry : ℕ → String → ContextLedgerEntry S
  mention_entry n normalized = record {
    id = evidence_id n;
    file_path = normalized;
    line_range = (1, 80);
    reason = "Explicit file mention in user query.";
    score = one;
    source = "file_mention";
    symbol_name = none;
  }

  -- The mention names a file below the root, as far as the start of its path says so.
  abbrev pub is_mentioned_file : String → Bool
  is_mentioned_file normalized =
      let absolute = resolve root normalized in
      starts_with absolute (resolve root "") && exists absolute

  abbrev pub file_mention_entries : ℕ → List String → List (ContextLedgerEntry S)
  file_mention_entries n [] = []
  file_mention_entries n (mention ∷ rest) =
      let normalized = strip_root mention in
      let more = file_mention_entries (n + 1) rest in
      if is_mentioned_file normalized then mention_entry n normalized ∷ more else more

  -- `${filePath}:${lineRange[0]}:${lineRange[1]}:${source}`.
  abbrev pub entry_key : ContextLedgerEntry S → String
  entry_key entry = String.◌++◌ entry.file_path (
      String.◌++◌ ":" (
        String.◌++◌ (number_text entry.line_range.0) (
          String.◌++◌ ":"
            (String.◌++◌ (number_text entry.line_range.1) (String.◌++◌ ":" entry.source)))))

  -- `sort((left, right) => right.score - left.score)`, which is stable.
  abbrev pub insert_entry :
      ContextLedgerEntry S → List (ContextLedgerEntry S) → List (ContextLedgerEntry S)
  insert_entry entry [] = entry ∷ []
  insert_entry entry (e ∷ entries) =
      if at_least entry.score e.score then entry ∷ e ∷ entries else e ∷ insert_entry entry entries

  abbrev pub sorted_entries : List (ContextLedgerEntry S) → List (ContextLedgerEntry S)
  sorted_entries [] = []
  sorted_entries (entry ∷ entries) = insert_entry entry (sorted_entries entries)

  -- The entries whose key is not seen before; adding a key twice is adding it once.
  abbrev pub unseen : List String → List (ContextLedgerEntry S) → List (ContextLedgerEntry S)
  unseen seen [] = []
  unseen seen (entry ∷ entries) =
      let rest = unseen (add (entry_key entry) seen) entries in
      if member (entry_key entry) seen then rest else entry ∷ rest

  unfoldable pub dedupe_entries : List (ContextLedgerEntry S) → ℕ → List (ContextLedgerEntry S)
  dedupe_entries entries max_evidence = take max_evidence (unseen [] (sorted_entries entries))

  abbrev pub coverage_warnings : Retrieval S → List (ContextLedgerEntry S) → List WarningCode
  coverage_warnings retrieval entries =
      (if retrieval.reduced_coverage then reduced_scan_coverage ∷ [] else [])
      ++ map (λ reason. scan_stopped) retrieval.stop_reasons
      ++ (if not retrieval.graph_available then dependency_graph_unavailable ∷ [] else [])
      ++ (lsp_unconfigured ∷ [])
      ++ (if is_empty_list entries then no_evidence ∷ [] else [])
      ++ (if ltb (length entries) (length retrieval.results) then truncated_context ∷ [] else [])

  -- The name of the file in the cache's directory.
  abbrev pub cache_path : String → BudgetMode → String
  cache_path query budget_mode =
      let key : String = base64url (
        String.◌++◌ fingerprint
          (String.◌++◌ ":" (String.◌++◌ (budget_text budget_mode) (String.◌++◌ ":" query)))) in
      String.◌++◌ key ".json"

  abbrev pub planned_entries : String → BudgetMode → Retrieval S → List (ContextLedgerEntry S)
  planned_entries query budget_mode retrieval =
      dedupe_entries
        (ledger_entries 0 retrieval.results
          ++ file_mention_entries (length retrieval.results) (mentions query))
        (max_evidence_for_budget budget_mode)

  abbrev pub new_report : String → BudgetMode → Retrieval S → ContextReport S
  new_report query budget_mode retrieval =
      let entries = planned_entries query budget_mode retrieval in
      record {
        query = query;
        ledger_id = ledger_id;
        entries = entries;
        included = length entries;
        skipped = length retrieval.results - length entries;
        warnings = coverage_warnings retrieval entries;
        cache_status = miss;
        workspace_fingerprint = fingerprint;
        generated_at = now;
      }

  abbrev pub cached_report : ContextReport S → ContextReport S
  cached_report cached = record {
    query = cached.query;
    ledger_id = cached.ledger_id;
    entries = cached.entries;
    included = cached.included;
    skipped = cached.skipped;
    warnings = cached.warnings;
    cache_status = hit;
    workspace_fingerprint = fingerprint;
    generated_at = now;
  }

  -- `writeRankingCache`: what was written before stays where the write throws.
  abbrev pub write_ranking_cache :
      String → BudgetMode → ContextReport S → World S → Result String (ContextReport S) × World S
  write_ranking_cache query budget_mode report world =
      let name = cache_path query budget_mode in
      if can_write name
      then (ok report, record world { rankings = save name report world.rankings })
      else (err (write_error name), world)

  -- An empty query is an error; the result of a query is looked up, or made and written. The ledger's
  -- file has a short name, and is taken to be written.
  unfoldable pub inspect_context :
      String → Option BudgetMode → World S → Result String (ContextReport S) × World S
  inspect_context text budget world =
      let query = trim text in
      let budget_mode : BudgetMode = elim budget [ none ↦ normal | some mode ↦ mode ] in
      let report = new_report query budget_mode (retrieve query) in
      if str_eq query ""
      then (err "context query is required.", world)
      else elim (lookup (cache_path query budget_mode) world.rankings) [
        | some cached ↦ (ok (cached_report cached), world)
        | none ↦
            write_ranking_cache query budget_mode report
              (record world { ledgers = save report.ledger_id report world.ledgers })
      ]

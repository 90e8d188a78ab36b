-- ===== src/ContextPlanner/Cache.antt =====
-- A report is made once for a query, a budget and a state of the workspace.
use Prim.Native.String
use Prim.Native.String.{String}
use text.Mathlib.Text.{◌==◌ as str_eq}
use mathlib.Core.Path.{subst}
use dh_kit.Kit.{
  true, ◌≡◌, refl, sym, ap, ◌∙◌, false, Option, none, some, Result, ok, lookup, save, lookup-save,
}
use dh_kit.ContextPlanner.{
  BudgetMode, normal, budget_text, ContextReport, Platform, World, cache_path, cached_report,
  new_report, write_ranking_cache, inspect_context,
}

abbrev pub mode_of : Option BudgetMode → BudgetMode
mode_of budget = elim budget [ none ↦ normal | some mode ↦ mode ]

module _ {S : Type 0} (platform : Platform S) (query : String) (mode : BudgetMode)
    (world : World S) where
  -- What is answered to a query that is not empty.
  abbrev written : World S
  written =
      let report = new_report platform query mode (platform.retrieve query) in
      record {
        ledgers = save report.ledger_id report world.ledgers;
        rankings = save (cache_path platform query mode) report world.rankings;
      }

  abbrev looked_up : Option (ContextReport S) → Result String (ContextReport S) × World S
  looked_up (some cached) = (ok (cached_report platform cached), world)
  looked_up none =
      let report = new_report platform query mode (platform.retrieve query) in
      write_ranking_cache platform query mode report
        (record world { ledgers = save report.ledger_id report world.ledgers })

module _ {S : Type 0} where
  inspected :
      (platform : Platform S) (text : String) (budget : Option BudgetMode) (world : World S)
      → str_eq (platform.trim text) "" ≡ false
      → inspect_context platform text budget world
        ≡ looked_up platform
            (platform.trim text)
            (mode_of budget)
            world
            (lookup (cache_path platform (platform.trim text) (mode_of budget)) world.rankings)
  unfolding inspect_context
  inspected platform text budget world some_text =
      rw some_text
        (go (lookup (cache_path platform (platform.trim text) (mode_of budget)) world.rankings))
    where
      go :
          (o : Option (ContextReport S))
          → elim o
              as (λ (q : Option (ContextReport S)). Result String (ContextReport S) × World S) [
                | some cached ↦ (ok (cached_report platform cached), world)
                | none ↦
                    let query = platform.trim text in
                    let report =
                      new_report platform query (mode_of budget) (platform.retrieve query) in
                    write_ranking_cache platform query
                      (mode_of budget)
                      report
                      (record world { ledgers = save report.ledger_id report world.ledgers })
              ]
            ≡ looked_up platform (platform.trim text) (mode_of budget) world o
      go none = refl
      go (some cached) = refl

-- A query that is asked again, in the same budget and state of the workspace, is answered from the cache
-- with the report of the first time, whatever the retrieval would find now, and nothing is written. The
-- query is not blank, its cache file has a name that can be written, so is not too long, and `trim` and
-- base64url are the same functions both times.
pub inspect_context_again :
    {S : Type 0} (platform later : Platform S) (text : String) (budget : Option BudgetMode)
    (world : World S)
    → str_eq (platform.trim text) "" ≡ false
    → platform.can_write (cache_path platform (platform.trim text) (mode_of budget)) ≡ true
    → later.base64url ≡ platform.base64url
    → later.trim text ≡ platform.trim text
    → later.fingerprint ≡ platform.fingerprint
    → (report : ContextReport S) × ((inspect_context platform text budget world).0 ≡ ok report)
      × (inspect_context later text budget (inspect_context platform text budget world).1
          ≡ (ok (cached_report later report), (inspect_context platform text budget world).1))
inspect_context_again {S = S} platform later text budget world some_text short same_coding same_text
      same_state =
    subst Answered (sym (inspected platform text budget world some_text))
      (go (lookup (cache_path platform (platform.trim text) (mode_of budget)) world.rankings) refl)
  where
    Answered : Result String (ContextReport S) × World S → Type 0
    Answered r =
        (report : ContextReport S) × (r.0 ≡ ok report)
        × (inspect_context later text budget r.1 ≡ (ok (cached_report later report), r.1))

    same_key :
        cache_path later (later.trim text) (mode_of budget)
        ≡ cache_path platform (platform.trim text) (mode_of budget)
    same_key =
        ap (λ q. cache_path later q (mode_of budget)) same_text
        ∙ ap
            (λ f.
              String.◌++◌
                (later.base64url (
                  String.◌++◌ f (
                    String.◌++◌ ":" (
                      String.◌++◌ (budget_text (mode_of budget))
                        (String.◌++◌ ":" (platform.trim text))))))
                ".json")
            same_state
        ∙ ap
            (λ coding.
              String.◌++◌
                (coding (
                  String.◌++◌ platform.fingerprint (
                    String.◌++◌ ":" (
                      String.◌++◌ (budget_text (mode_of budget))
                        (String.◌++◌ ":" (platform.trim text))))))
                ".json")
            same_coding

    hit_again :
        (w : World S) (cached : ContextReport S)
        → lookup (cache_path platform (platform.trim text) (mode_of budget)) w.rankings
          ≡ some cached
        → inspect_context later text budget w ≡ (ok (cached_report later cached), w)
    hit_again w cached found =
        inspected later text budget w (ap (λ q. str_eq q "") same_text ∙ some_text)
        ∙ ap (looked_up later (later.trim text) (mode_of budget) w)
            (ap (λ k. lookup k w.rankings) same_key ∙ found)

    go :
        (o : Option (ContextReport S))
        → lookup (cache_path platform (platform.trim text) (mode_of budget)) world.rankings ≡ o
        → Answered (looked_up platform (platform.trim text) (mode_of budget) world o)
    go (some cached) found = (cached_report platform cached, refl, hit_again world cached found)
    go none missing = rw short (
      new_report platform (platform.trim text) (mode_of budget)
          (platform.retrieve (platform.trim text)),
      refl,
      hit_again (written platform (platform.trim text) (mode_of budget) world)
          (new_report platform (platform.trim text) (mode_of budget)
            (platform.retrieve (platform.trim text)))
          (lookup-save (cache_path platform (platform.trim text) (mode_of budget)) _
            world.rankings),
    )

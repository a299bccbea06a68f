-- ===== src/EventQueue/Tests/Leases.antt =====
-- Runs of `EventStore` (gtasks/event_queue/store.py).
use gtasks.Prelude.{◌≡◌, ◌≢◌, refl, inr, arith, [], ◌∷◌}
use gtasks.Prelude.Exec.{ok, err, claim_conflict, value_error}
use gtasks.EventQueue.Time.{aware}
use gtasks.EventQueue.Store.{
  claim, claim_body, claim_row, release, record_terminal, reopen_terminal, reopen_body, con,
  process, busy, empty_store,
}
use gtasks.EventQueue.Store.Invariant.{IsValid, empty_store-IsValid}
use gtasks.EventQueue.Store.Calls.{Call, run, step, run-IsValid}
use gtasks.EventQueue.Store.Claim.{claim-eq-answer, claim_unchanged}
use gtasks.EventQueue.Store.Lease.{claim-exclusive, claim-accepted}
use gtasks.EventQueue.Store.DeadLetter.{
  claim-record_terminal, claim-release, reopen_terminal-answer,
}
use gtasks.EventQueue.Tests.Samples.{
  first_claim, rival_claim, held_store, held_receipt, accepted_store, accepted_receipt,
  terminal_store, dead_letter, entry,
}

held_store-IsValid : IsValid held_store
held_store-IsValid = record {
  rows = (refl, tt);
  distinct = (tt, tt);
  terminals_distinct = tt;
  ids_below = tt;
  ids_rise = tt;
}

accepted_store-IsValid : IsValid accepted_store
accepted_store-IsValid = record {
  rows = ((refl, refl), tt);
  distinct = (tt, tt);
  terminals_distinct = tt;
  ids_below = tt;
  ids_rise = tt;
}

terminal_store-IsValid : IsValid terminal_store
terminal_store-IsValid = record {
  rows = ((refl, refl), tt);
  distinct = (tt, tt);
  terminals_distinct = (tt, tt);
  ids_below = tt;
  ids_rise = tt;
}

claim-exclusive_example :
    (claim rival_claim (aware 60000000) 120 (
      run
        (Call.record_activity entry (aware 3) ∷ Call.claim first_claim (aware 7) 60 ∷ [])
        (claim first_claim (aware 0) 120 empty_store).1)).0
    ≢ ok process
unfolding claim claim_body claim_row con
claim-exclusive_example =
    claim-exclusive first_claim rival_claim 0 120 60000000 120 empty_store
      (Call.record_activity entry (aware 3) ∷ Call.claim first_claim (aware 7) 60 ∷ [])
      empty_store-IsValid refl (tt, ((λ e. omega arith), tt)) (inr (refl, refl)) (omega arith)

claim-accepted_example :
    (claim rival_claim (aware 60) 120 (
      run
        (Call.release "e1" (aware 3) ∷ Call.reopen_terminal "e1" (aware 7) 60 ∷ [])
        accepted_store)).0
    ≡ err claim_conflict
unfolding run step release reopen_terminal reopen_body con
claim-accepted_example =
    claim-accepted rival_claim 60 120 accepted_receipt accepted_store
      (Call.release "e1" (aware 3) ∷ Call.reopen_terminal "e1" (aware 7) 60 ∷ [])
      accepted_store-IsValid refl refl (tt, (tt, tt)) refl refl

claim-eq-answer_example : (claim first_claim (aware 120000000) 60 held_store).0 ≡ ok process
claim-eq-answer_example =
    claim-eq-answer first_claim 120000000 60 held_store held_store-IsValid refl

claim_unchanged_example : (claim rival_claim (aware 5) 60 held_store).1 ≡ held_store
unfolding claim claim_body claim_row con
claim_unchanged_example = claim_unchanged rival_claim (aware 5) 60 held_store (λ e. cc)

run-IsValid_example :
    IsValid (
      run
        (Call.claim first_claim (aware 0) 120 ∷ Call.record_terminal dead_letter ∷ [])
        empty_store)
run-IsValid_example =
    run-IsValid (Call.claim first_claim (aware 0) 120 ∷ Call.record_terminal dead_letter ∷ [])
      empty_store empty_store-IsValid

claim-record_terminal_example :
    (claim first_claim (aware 60) 120 (record_terminal dead_letter accepted_store).1).0 ≡ ok busy
claim-record_terminal_example =
    claim-record_terminal first_claim dead_letter 60 120 accepted_receipt accepted_store
      accepted_store-IsValid refl refl refl

claim-release_example :
    (claim first_claim (aware 60) 120 (release "e1" (aware 50) held_store).1).0 ≡ ok process
claim-release_example =
    claim-release first_claim 50 60 120 held_receipt held_store held_store-IsValid refl refl refl
      refl (omega arith)

-- an event without a receipt
reopen_terminal-answer_example :
    (reopen_terminal "e2" (aware 60) 120 held_store).0 ≡ err value_error
reopen_terminal-answer_example =
    reopen_terminal-answer "e2" 60 120 held_store held_store-IsValid refl (omega arith)

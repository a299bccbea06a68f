-- ===== src/Domain/Queue.antt =====
-- The progress that gtasks/domain.py writes is what gtasks/event_queue/gbrain_adapter.py reads.
use gtasks.Prelude.{
  ◌+◌, ◌≡◌, refl, sym, ap, ◌∙◌, subst, arith, inl, inr, String, Bool, true, false, not, Option,
  some, List, [], ◌==◌, nat_eq, eq_iff, Bool-cases,
}
use gtasks.Prelude.Exec.{Error, Result, ok, err, domain_error}
use gtasks.Prelude.Checked.{fail_if, >>=-eq-ok}
use gtasks.Prelude.Tables.{length}
use gtasks.EventQueue.Json.{
  Value, Fields, Items, null, bool, int, float, str, arr, obj, nil, cons, keys, get_field,
}
use gtasks.EventQueue.Memory.{frozen}
use gtasks.EventQueue.Gbrain.Calls.{PageLibrary}
use gtasks.EventQueue.Gbrain.QuotaPage.{metric_of, progress_of, progress_invalid, texts_or}
use gtasks.Domain.Metrics.{
  DomainLibrary, ProgressMetric, EventProgress, items_of, baseline_of, metric_from, nonblank_texts,
  texts_of, progress_from, metric_to_dict, progress_to_dict, derived_current,
}
use gtasks.Domain.Normal.{item_again, distinct-same}
use gtasks.Domain.QueueMetric.{SharedLaws, metric-Written}

module _ (lib : DomainLibrary) (pages : PageLibrary) (laws : SharedLaws lib pages) where
  item-filled : (s : String) → (lib.strip s == "") ≡ false → (s == "") ≡ false
  item-filled s h = elim (Bool-cases (s == "")) [
    | inl blank ↦
        let e : s ≡ "" = (eq_iff s "").0 blank in
        let stripped : lib.strip s ≡ "" = ap lib.strip e ∙ laws.strip_nothing in
        absurd (ground (arith, (eq_iff (lib.strip s) "").1 stripped))
    | inr filled ↦ filled
  ]

  texts_or-written :
      (e : Error) (vs : Items) (ss : List String)
      → nonblank_texts lib vs ≡ ok ss
      → texts_or e (items_of ss) ≡ ok ss
  texts_or-written e nil ss h = let same : ss ≡ [] = ground arith in rw same refl
  texts_or-written e (cons (str s) vs) ss h =
      let (rest, e1, filled, same) = item_again lib s (nonblank_texts lib vs) ss h in
      rw same (rw (item-filled s filled, texts_or-written e vs rest e1) refl)
  texts_or-written e (cons v vs) ss h = absurd (ground arith)

  texts_of-written :
      (e : Error) (v : Option Value) (ss : List String)
      → texts_of lib v ≡ ok ss
      → (texts_or e (items_of ss) ≡ ok ss) × (nat_eq (length (frozen ss)) (length ss) ≡ true)
  unfolding texts_of
  texts_of-written e (some (arr vs)) ss h =
      let (ts, e1, h1) = >>=-eq-ok (nonblank_texts lib vs) _ h in
      let same : ts ≡ ss = distinct-same lib ts ss h1 in
      (
        texts_or-written e vs ss (e1 ∙ ap ok same),
        subst (λ z. nat_eq (length (frozen z)) (length z) ≡ true) same (ground arith),
      )
  texts_of-written e v ss h = absurd (ground arith)

  progress_of-written :
      (fm : Fields) (p : EventProgress)
      → get_field "event_progress" fm ≡ some (obj (progress_to_dict p))
      → texts_or progress_invalid (items_of p.evidence_slugs) ≡ ok p.evidence_slugs
      → texts_or progress_invalid (items_of p.receipt_ids) ≡ ok p.receipt_ids
      → nat_eq (length (frozen p.evidence_slugs)) (length p.evidence_slugs) ≡ true
      → nat_eq (length (frozen p.receipt_ids)) (length p.receipt_ids) ≡ true
      → nat_eq (length p.evidence_slugs) (length p.receipt_ids) ≡ true
      → progress_of (derived_current p) fm
        ≡ ok (record {
          baseline_count = p.baseline_count;
          evidence = frozen p.evidence_slugs;
          receipt_ids = frozen p.receipt_ids;
        })
  unfolding progress_of progress_to_dict get_field keys
  progress_of-written fm p at ev re de dr paired =
      let same : nat_eq (length (frozen p.evidence_slugs)) (length (frozen p.receipt_ids)) ≡ true =
        ground arith in
      elim (Bool-cases (nat_eq p.baseline_count 0)) [
        | inl zero_ ↦
            let nothing : p.baseline_count ≡ 0 = ground arith in
            let counted : nat_eq (derived_current p) (0 + length (frozen p.evidence_slugs)) ≡ true =
              ground arith in
            rw (at, zero_, ev, re, de, dr, same, counted)
              (ap
                (λ n. ok (record {
                  baseline_count = n;
                  evidence = frozen p.evidence_slugs;
                  receipt_ids = frozen p.receipt_ids;
                }))
                (sym nothing))
        | inr more ↦
            let counted : nat_eq (derived_current p)
                  (p.baseline_count + length (frozen p.evidence_slugs))
                ≡ true =
              ground arith in
            rw (at, more, ev, re, de, dr, same, counted) refl
      ]

  abbrev ProgressRead : Fields → EventProgress → Type 0
  ProgressRead fm p =
      progress_of (derived_current p) fm
      ≡ ok (record {
        baseline_count = p.baseline_count;
        evidence = frozen p.evidence_slugs;
        receipt_ids = frozen p.receipt_ids;
      })

  abbrev ProgressWritten : Fields → Result EventProgress → Type 0
  ProgressWritten fm (ok p) =
      get_field "event_progress" fm ≡ some (obj (progress_to_dict p)) → ProgressRead fm p
  ProgressWritten fm (err e) = Unit

  progress-Written :
      (v : Value) (p : EventProgress) (fm : Fields)
      → progress_from lib v ≡ ok p
      → get_field "event_progress" fm ≡ some (obj (progress_to_dict p))
      → ProgressRead fm p
  unfolding progress_from
  progress-Written (obj fs) p fm h at =
      let (baseline, e1, h1) = >>=-eq-ok (baseline_of (get_field "baseline_count" fs)) _ h in
      let (evidence, e2, h2) = >>=-eq-ok (texts_of lib (get_field "evidence_slugs" fs)) _ h1 in
      let (receipts, e3, h3) = >>=-eq-ok (texts_of lib (get_field "receipt_ids" fs)) _ h2 in
      let unpaired : Bool = not (nat_eq (length evidence) (length receipts)) in
      let (u, e4, h4) = >>=-eq-ok (fail_if unpaired domain_error) _ h3 in
      let (ev, de) =
        texts_of-written progress_invalid (get_field "evidence_slugs" fs) evidence e2 in
      let (re, dr) = texts_of-written progress_invalid (get_field "receipt_ids" fs) receipts e3 in
      let read : ProgressWritten fm (
          ok (record {
            baseline_count = baseline;
            evidence_slugs = evidence;
            receipt_ids = receipts;
          })) =
        λ at. progress_of-written fm _ at ev re de dr (ground arith) in
      subst (ProgressWritten fm) h4 read at
  progress-Written (arr _) p fm h at = cc
  progress-Written (str _) p fm h at = cc
  progress-Written (float _) p fm h at = cc
  progress-Written (int _) p fm h at = cc
  progress-Written (bool _) p fm h at = cc
  progress-Written null p fm h at = cc

  -- What the domain accepts and writes back is read by the event queue as it is: a metric bound to job_applied
  -- gives its day, target and count, and a progress whose sum is the count of the metric gives its baseline,
  -- evidence and receipts.
  pub queue-reads :
      (v w : Value) (m : ProgressMetric) (p : EventProgress) (fm : Fields)
      → metric_from lib v ≡ ok m
      → progress_from lib w ≡ ok p
      → m.event_binding ≡ some "job_applied"
      → m.current ≡ derived_current p
      → get_field "progress_metric" fm ≡ some (obj (metric_to_dict m))
      → get_field "event_progress" fm ≡ some (obj (progress_to_dict p))
      → ((d : String) × (m.task_day ≡ some d)
          × (metric_of pages fm ≡ ok (record { day = d; target = m.target; current = m.current })))
        × (progress_of m.current fm
            ≡ ok (record {
              baseline_count = p.baseline_count;
              evidence = frozen p.evidence_slugs;
              receipt_ids = frozen p.receipt_ids;
            }))
  queue-reads v w m p fm hm hp bound counted am ap_ = (
    metric-Written lib pages laws v m fm hm bound am,
    rw counted (progress-Written w p fm hp ap_),
  )

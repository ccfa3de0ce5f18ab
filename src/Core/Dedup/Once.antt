-- ===== src/Core/Dedup/Once.antt =====
-- Exactly-once results from the table of crates/iron-core/src/dedup.rs: what `begin` grants, `complete`
-- finishes and `begin` then replays.
use iron_consensus.Prelude.{
  ℕ, ◌≤◌, ◌<◌, ◌≡◌, ◌≢◌, refl, sym, ap, subst, ◌∙◌, true, List, some, arith, All, length,
  Bool-cases, inl, inr, u64_mod, Result, ok,
}
use iron_consensus.Order.{is_eq, is_eq_iff, nat_ord, list_ord}
use iron_consensus.BTreeMap
use iron_consensus.BTreeMap.Laws.{get-insert}
use iron_consensus.Core.Dedup.Types.{
  DedupKey, Fingerprint, BeginResult, CompleteResult, DedupError, Entry, EntryState, DedupTable,
  DedupConfig, key_ord,
}
use iron_consensus.Core.Dedup.{begin, begin_present, complete, total_fits}
use iron_consensus.Core.Dedup.Bytes.{weight, total, total-none}
use iron_consensus.Core.Dedup.Valid.{IsValid}
use iron_consensus.Core.Dedup.Keep.{fresh, reserved-IsValid, finished}
use iron_consensus.Core.Dedup.Outcomes.{
  Begun, Ended, begin-Begun, complete-Ended, Begun-Keeps, state-cases, AllInFlight,
}
use iron_consensus.Core.Dedup.Calls.{Call, key_of, run, Held, run-Held}

-- The configurations that `DedupTableConfig::new` accepts.
pub record IsConfigured (c : DedupConfig) : Type 0 where
  pub outcome_fits : c.max_outcome_bytes ≤ c.max_total_outcome_bytes
  pub total_is_u64 : c.max_total_outcome_bytes < u64_mod

begin_present_old :
    (e : Entry) (fingerprint : Fingerprint) → begin_present e fingerprint ≢ BeginResult.new
unfolding begin_present
begin_present_old e fp h = elim (Bool-cases (is_eq e.fingerprint fp)) [
  | inr other ↦ grind (arith, h, other)
  | inl same ↦ elim (state-cases e.state) [
    | inl pending ↦ grind (arith, h, same, pending)
    | inr (o, done) ↦ grind (arith, h, same, done)
  ]
]

-- What a granted reservation looks like.
pub granted-Held :
    (key : DedupKey) (fingerprint : Fingerprint) (t : DedupTable)
    (r : DedupTable × Result DedupError BeginResult)
    → Begun key fingerprint t r
    → r.1 ≡ ok BeginResult.new
    → (e : Entry) × Held key e r.0 × (e.fingerprint ≡ fingerprint)
granted-Held key fp t _ (Begun.present e h) n = absurd (begin_present_old e fp (grind (arith, n)))
granted-Held key fp t _ (Begun.exhausted h o) n = absurd (grind (arith, n))
granted-Held key fp t _ (Begun.refused u h s a) n = absurd (grind (arith, n))
granted-Held key fp t _ (Begun.granted u s absent room) n = (
  fresh key fp u s.valid absent room,
  record {
    valid = reserved-IsValid key fp u s.valid absent room;
    here = ground (
      arith,
      get-insert key key (fresh key fp u s.valid absent room) u.entries,
      is_eq_iff key key,
    );
    pending = refl;
  },
  refl,
)

AllInFlight-total : (t : DedupTable) → IsValid t → AllInFlight t → t.retained_outcome_bytes ≡ 0
AllInFlight-total t v h =
    let none_left : total t.entries ≡ 0 =
      total-none t.entries v.sorted (λ j e g. ap weight (h j e g)) in
    omega (arith, v.bytes)

-- With every entry in flight the bytes of a legal outcome fit.
fits_alone :
    (t : DedupTable) (n : ℕ)
    → IsConfigured t.config
    → t.retained_outcome_bytes ≡ 0
    → n ≤ t.config.max_outcome_bytes
    → total_fits t n ≡ true
unfolding total_fits
fits_alone t n c h b = ground (arith, c.outcome_fits, c.total_is_u64)

pub Ended-stored :
    (key : DedupKey) (fingerprint : Fingerprint) (outcome : List ℕ) (t : DedupTable) (e : Entry)
    (r : DedupTable × Result DedupError CompleteResult)
    → Ended key fingerprint outcome t r
    → IsConfigured t.config
    → length outcome ≤ t.config.max_outcome_bytes
    → Held key e t
    → e.fingerprint ≡ fingerprint
    → (r.1 ≡ ok CompleteResult.completed)
      × (BTreeMap.get key r.0.entries ≡ some (record e { state = EntryState.completed outcome }))
Ended-stored key fp o t e _ (Ended.missing h) c b held same = absurd (grind (arith, h, held.here))
Ended-stored key fp o t e _ (Ended.differs f h n) c b held same =
    absurd (n (grind (arith, h, held.here, same)))
Ended-stored key fp o t e _ (Ended.repeated f old h n s) c b held same =
    absurd (grind (arith, h, held.here, s, held.pending))
Ended-stored key fp o t e _ (Ended.oversized h) c b held same = absurd (omega arith)
Ended-stored key fp o t e _ (Ended.short u f small s h pending over stuck) c b held same =
    let flying : AllInFlight u =
      λ j g k. elim (stuck j g k) [ inl here ↦ grind (arith, h, k, here, pending) | inr p ↦ p ] in
    absurd (
      grind (
        arith,
        over,
        fits_alone u (length o) (subst IsConfigured (sym s.same_config) c)
            (AllInFlight-total u s.valid flying) (ground (arith, s.same_config)),
      ))
Ended-stored key fp o t e _ (Ended.done u f s h pending fits g n) c b held same = (
  refl,
  ground (
    arith,
    get-insert key key (finished key o u s.valid f h pending fits) u.entries,
    is_eq_iff key key,
    g,
    held.here,
  ),
)

-- What a finished key answers.
finished-begin :
    (key : DedupKey) (fingerprint : Fingerprint) (outcome : List ℕ) (t : DedupTable) (e : Entry)
    → BTreeMap.get key t.entries ≡ some (record e { state = EntryState.completed outcome })
    → e.fingerprint ≡ fingerprint
    → begin key fingerprint t ≡ (t, ok (BeginResult.replay outcome))
unfolding begin begin_present
finished-begin key fp o t e h same = ground (arith, is_eq_iff e.fingerprint fp)

finished-conflict :
    (key : DedupKey) (fingerprint : Fingerprint) (outcome : List ℕ) (t : DedupTable) (e : Entry)
    → BTreeMap.get key t.entries ≡ some (record e { state = EntryState.completed outcome })
    → e.fingerprint ≢ fingerprint
    → begin key fingerprint t ≡ (t, ok BeginResult.conflict)
unfolding begin begin_present
finished-conflict key fp o t e h other = ground (arith, is_eq_iff e.fingerprint fp)

-- Suppose the invariant holds, the configuration's outcome bound is within its total bound and that
-- within u64, `begin` grants a key, any calls on other keys follow, and then the outcome, within its
-- bound, is completed with the same fingerprint. The completion succeeds; afterwards `begin` with
-- that fingerprint replays exactly the outcome's bytes, and with any other fingerprint it is a
-- conflict, and neither changes the table.
pub exactly_once :
    (t : DedupTable) (key : DedupKey) (fingerprint other : Fingerprint) (outcome : List ℕ)
    (cs : List Call)
    → IsValid t
    → IsConfigured t.config
    → (begin key fingerprint t).1 ≡ ok BeginResult.new
    → All (λ c. key ≢ key_of c) cs
    → length outcome ≤ t.config.max_outcome_bytes
    → fingerprint ≢ other
    → let r = complete key fingerprint outcome (run cs (begin key fingerprint t).0) in
      (r.1 ≡ ok CompleteResult.completed)
      × (begin key fingerprint r.0 ≡ (r.0, ok (BeginResult.replay outcome)))
      × (begin key other r.0 ≡ (r.0, ok BeginResult.conflict))
exactly_once t key fp other o cs v c granted others small differ =
    let begun = begin-Begun key fp t v in
    let (e, held, same) = granted-Held key fp t (begin key fp t) begun granted in
    let (kept, config) = run-Held key e cs (begin key fp t).0 others held in
    let u = run cs (begin key fp t).0 in
    let configs : u.config ≡ t.config =
      config ∙ (Begun-Keeps key fp t (begin key fp t) v begun).same_config in
    let (ended, found) =
      Ended-stored key fp o u e (complete key fp o u) (complete-Ended key fp o u kept.valid)
        (subst IsConfigured (sym configs) c) (ground (arith, configs)) kept same in
    (
      ended,
      finished-begin key fp o (complete key fp o u).0 e found same,
      finished-conflict key other o (complete key fp o u).0 e found (λ q. differ (sym same ∙ q)),
    )

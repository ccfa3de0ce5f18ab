-- ===== src/Core/Config/Node/Ends.antt =====
-- The validations of the WAL, transport and deduplication settings in crates/iron-core/src/config.rs
-- end: with a value or with at least one error, and no `expect` fails.
use iron_consensus.Prelude.{
  ℕ, ◌≡◌, ◌≢◌, refl, sym, ap₂, subst, inl, inr, ◌⊎◌, List, [], ◌∷◌, ◌++◌, Option, none, some,
  Result, ok, err, arith,
}
use iron_consensus.Core.Dedup.Types.{DedupConfig}
use iron_consensus.Core.Config.{RawDedupConfig, ValidationError, try_from}
use iron_consensus.Core.Config.Dedup.{validated, try_from_cases}
use iron_consensus.Core.Config.Node.Types.{
  Url, RawWalConfig, RawTransportConfig, FieldPath, Problem,
}
use iron_consensus.Wal.Types.{SyncPolicy}
use iron_consensus.Core.Config.Node.Members.{snoc_nonempty}
use iron_consensus.Core.Config.Node.{
  keep_or_note, settle, wal_built, transport_built, prefixed, dedup_prefixed, wal_try_from,
  transport_try_from,
}

-- A value, or errors of which there is at least one.
abbrev pub Ends {ℓ κ} : {E : Type ℓ} {A : Type κ} → Option (Result (List E) A) → Type (ℓ ⊔ κ)
Ends {E = E} {A = A} r =
    ((a : A) × (r ≡ some (ok a))) ⊎ ((e : E) × (es : List E) × (r ≡ some (err (e ∷ es))))

pub settle-Ends {ℓ} :
    {A : Type ℓ} (es : List Problem) (value : Option A)
    → (es ≡ [] → (a : A) × (value ≡ some a))
    → Ends (settle es value)
unfolding settle
settle-Ends [] value h = let (a, e) = h refl in inl (a, rw (e) refl)
settle-Ends (e ∷ es) value h = inr (e, es, refl)

pub keep_or_note-There {ℓ κ} :
    {E : Type ℓ} {A : Type κ} (r : Result E A) (note : E → Problem) (es : List Problem)
    → (keep_or_note r note es).1 ≡ []
    → ((a : A) × ((keep_or_note r note es).0 ≡ some a)) × (es ≡ [])
unfolding keep_or_note
keep_or_note-There (ok v) note es h = ((v, refl), h)
keep_or_note-There (err e) note es h = absurd (snoc_nonempty es (note e) h)

append_nonempty {ℓ} : {A : Type ℓ} (xs : List A) (y : A) (ys : List A) → xs ++ (y ∷ ys) ≢ []
append_nonempty [] y ys h = ground arith
append_nonempty (x ∷ xs) y ys h = ground arith

-- The value is there.
abbrev pub There {ℓ} : {A : Type ℓ} → Option A → Type ℓ
There {A = A} o = (a : A) × (o ≡ some a)

wal_built-There :
    (raw : RawWalConfig) (size : Option ℕ) (policy : Option SyncPolicy)
    → There size
    → There policy
    → There (wal_built raw size policy)
unfolding wal_built
wal_built-There raw size policy (n, h) (p, h') =
    subst There (ap₂ (wal_built raw) (sym h) (sym h')) (_, refl)

pub wal_try_from-Ends : (raw : RawWalConfig) → Ends (wal_try_from raw)
unfolding wal_try_from
wal_try_from-Ends raw = settle-Ends _ _ (λ empty.
    let (policy, empty1) = keep_or_note-There _ _ _ empty in
    let (size, empty2) = keep_or_note-There _ _ _ empty1 in wal_built-There raw _ _ size policy)

pub prefixed-There {ℓ} :
    {A : Type ℓ} (within : FieldPath → FieldPath) (r : Result (List Problem) A) (es : List Problem)
    → r ≢ err []
    → (prefixed within r es).1 ≡ []
    → There (prefixed within r es).0 × (es ≡ [])
unfolding prefixed
prefixed-There within (ok v) es h e = ((v, refl), e)
prefixed-There within (err []) es h e = absurd (h refl)
prefixed-There within (err (p ∷ ps)) es h e = absurd (append_nonempty es _ _ e)

pub dedup_prefixed-There :
    (r : Result (List ValidationError) DedupConfig) (es : List Problem)
    → r ≢ err []
    → (dedup_prefixed r es).1 ≡ []
    → There (dedup_prefixed r es).0 × (es ≡ [])
unfolding dedup_prefixed
dedup_prefixed-There (ok v) es h e = ((v, refl), e)
dedup_prefixed-There (err []) es h e = absurd (h refl)
dedup_prefixed-There (err (p ∷ ps)) es h e = absurd (append_nonempty es _ _ e)

-- Whatever ends so is a result, and none without an error.
pub Ends-result {ℓ κ} :
    {E : Type ℓ} {A : Type κ} (o : Option (Result (List E) A))
    → Ends o
    → (r : Result (List E) A) × ((r ≢ err []) × (o ≡ some r))
Ends-result o (inl (a, h)) = (ok a, (λ e. ground arith, h))
Ends-result o (inr (e, es, h)) = (err (e ∷ es), (λ e'. ground arith, h))

pub dedup-Ends : (raw : RawDedupConfig) → Ends (try_from raw)
dedup-Ends raw = elim (try_from_cases raw) [
  | inl (legal, h, configured) ↦ inl (validated raw, h)
  | inr refused ↦ inr (refused.error, refused.errors, refused.result)
]

module _ {S : Type 0} (parse_address : List ℕ → Option S) (parse_url : List ℕ → Option Url) where
  transport_built-There :
      (a : Option S) (u : Option Url) (r c m : Option ℕ)
      → There a
      → There u
      → There r
      → There c
      → There m
      → There (transport_built parse_address parse_url a u r c m)
  unfolding transport_built
  transport_built-There (some a) (some u) (some r) (some c) (some m) ha hu hr hc hm = (_, refl)
  transport_built-There none u r c m (x, h) hu hr hc hm = ground arith
  transport_built-There (some a) none r c m ha (x, h) hr hc hm = ground arith
  transport_built-There (some a) (some u) none c m ha hu (x, h) hc hm = ground arith
  transport_built-There (some a) (some u) (some r) none m ha hu hr (x, h) hm = ground arith
  transport_built-There (some a) (some u) (some r) (some c) none ha hu hr hc (x, h) = ground arith

  pub transport_try_from-Ends :
      (raw : RawTransportConfig) → Ends (transport_try_from parse_address parse_url raw)
  unfolding transport_try_from
  transport_try_from-Ends raw = settle-Ends _ _ (λ empty.
      let (size, empty1) = keep_or_note-There _ _ _ empty in
      let (connect, empty2) = keep_or_note-There _ _ _ empty1 in
      let (request, empty3) = keep_or_note-There _ _ _ empty2 in
      let (url, empty4) = keep_or_note-There _ _ _ empty3 in
      let (address, empty5) = keep_or_note-There _ _ _ empty4 in
      transport_built-There _ _ _ _ _ address url request connect size)

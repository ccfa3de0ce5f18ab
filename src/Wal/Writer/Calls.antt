-- ===== src/Wal/Writer/Calls.antt =====
-- The I/O calls of crates/iron-wal/src/writer.rs, each with both its ends.
use iron_consensus.Prelude.{
  ℕ, zero, suc, ◌+◌, ◌≡◌, refl, ap, ◌∙◌, true, List, [], ◌∷◌, ◌++◌, none, some, Result, ok, err,
  ◌>>=◌, ltb, length, take, drop, checked_add, arith, Bool-cases, Option-cases, ◌⊎◌, inl, inr,
}
use mathlib.Core.List.{append-nil}
use native.Mathlib.Nat.{zero-add, suc-add}
use iron_consensus.Wal.Types.{Operation, WalError}
use iron_consensus.Wal.Io.{File, seek, write_all, sync_data, overwrite, attempt, outcome, later}
use iron_consensus.Wal.Writer.{FileWal, sync_current}

pub take_all : (xs : List ℕ) → take (length xs) xs ≡ xs
take_all [] = refl
take_all (x ∷ xs) = ap (◌∷◌ x) (take_all xs)

pub drop_past : (xs : List ℕ) (n : ℕ) → drop (length xs + n) xs ≡ []
drop_past [] zero = refl
drop_past [] (suc n) = rw zero-add refl
drop_past (x ∷ xs) n = rw suc-add (drop_past xs n)

pub overwrite_end : (bytes new : List ℕ) → overwrite bytes (length bytes) new ≡ bytes ++ new
unfolding overwrite
overwrite_end bytes new = rw (take_all bytes, drop_past bytes (length new), append-nil) refl

pub attempt-cases :
    {A : Type 0} (op : Operation) (cut : ℕ → File) (full : File) (a : A) (f : File)
    → (attempt op cut full a f ≡ (record full { faults = later f.faults }, ok a))
      ⊎ ((n : ℕ) × (attempt op cut full a f
            ≡ (record (cut n) { faults = later f.faults }, err (WalError.io op))))
attempt-cases op cut full a f = elim (Option-cases (outcome f.faults)) [
  | inl e ↦ inl (rw (attempt, e) refl)
  | inr (n, e) ↦ inr (n, rw (attempt, e) refl)
]

abbrev pub next_file : File → File
next_file f = record f { faults = later f.faults }

pub seek-cases :
    (position : ℕ) (f : File)
    → (seek Operation.seeking_append position f
        ≡ (next_file (record f { position = position }), ok tt))
      ⊎ (seek Operation.seeking_append position f
          ≡ (next_file f, err (WalError.io Operation.seeking_append)))
unfolding seek
seek-cases position f =
    elim (attempt-cases Operation.seeking_append (λ n. f) (record f { position = position }) tt f) [
      | inl e ↦ inl (rw (seek, e) refl)
      | inr (n, e) ↦ inr (rw (seek, e) refl)
    ]

-- A write at the end of the file stores the bytes, or some of them.
pub write_all-cases :
    (new : List ℕ) (f : File)
    → f.position ≡ length f.bytes
    → ((f' : File) × ((write_all Operation.writing_frame new f ≡ (f', ok tt))
          × (f'.bytes ≡ f.bytes ++ new)))
      ⊎ ((f' : File) × ((write_all Operation.writing_frame new f
              ≡ (f', err (WalError.io Operation.writing_frame)))
            × ((n : ℕ) × (f'.bytes ≡ f.bytes ++ take n new))))
unfolding write_all
write_all-cases new f end =
    let at_end = λ (x : List ℕ). ap (λ p. overwrite f.bytes p x) end ∙ overwrite_end f.bytes x in
    elim (attempt-cases Operation.writing_frame
      (λ n. record f { bytes = overwrite f.bytes f.position (take n new) })
      (record f { bytes = overwrite f.bytes f.position new; position = f.position + length new }) tt
      f) [
        | inl e ↦ inl (
          next_file (record f {
            bytes = overwrite f.bytes f.position new;
            position = f.position + length new;
          }),
          (rw (write_all, e) refl, at_end new),
        )
        | inr (n, e) ↦ inr (
          next_file (record f { bytes = overwrite f.bytes f.position (take n new) }),
          (rw (write_all, e) refl, (n, at_end (take n new))),
        )
      ]

-- A writer after its barrier.
abbrev pub synced : FileWal → FileWal
synced w = record w {
  file = record w.file { faults = later w.file.faults };
  durable_through = w.last_lsn;
  unsynced_records = 0;
}

abbrev pub unsynced : FileWal → FileWal
unsynced w = record w { file = record w.file { faults = later w.file.faults }; poisoned = true }

pub sync_current-cases :
    (w : FileWal)
    → (sync_current w ≡ (synced w, ok tt))
      ⊎ (sync_current w ≡ (unsynced w, err (WalError.io Operation.syncing_data)))
unfolding sync_current sync_data
sync_current-cases w = elim (attempt-cases Operation.syncing_data (λ n. w.file) w.file tt w.file) [
  | inl e ↦ inl (rw (sync_data, e) refl)
  | inr (n, e) ↦ inr (rw (sync_data, e) refl)
]

pub checked_add-cases :
    (bound a b : ℕ) → (checked_add bound a b ≡ none) ⊎ (checked_add bound a b ≡ some (a + b))
checked_add-cases bound a b = elim (Bool-cases (ltb (a + b) bound)) [
  | inl e ↦ inr (rw e refl)
  | inr e ↦ inl (rw e refl)
]

pub bind_ok :
    {A B : Type 0} (m : Result WalError A) (k : A → Result WalError B) {b : B}
    → (m >>= k) ≡ ok b
    → (a : A) × ((m ≡ ok a) × (k a ≡ ok b))
bind_ok (ok a) k e = (a, (refl, e))
bind_ok (err x) k e = absurd (grind (arith, e))

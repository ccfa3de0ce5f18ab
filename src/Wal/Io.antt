-- ===== src/Wal/Io.antt =====
-- The trait `WalIo` of crates/iron-wal/src/writer.rs over a file: its bytes, the position of the
-- handle, and how the coming calls end. A call fails if the next outcome says so, and a failing
-- write has then stored that many bytes; with no outcome left every call succeeds.
use iron_consensus.Prelude.{
  ℕ, ◌+◌, List, [], ◌∷◌, ◌++◌, Option, none, some, Result, ok, err, if◌then◌else◌, leb, length,
  take, drop,
}
use iron_consensus.Wal.Types.{Operation, WalError}

pub record File : Type 0 where
  pub bytes : List ℕ
  pub position : ℕ
  pub faults : List (Option ℕ)

-- A computation on the file that may fail.
abbrev pub M : Type 0 → Type 0
M A = File → File × Result WalError A

infixl 5 ◌>>=◌ ◌>>◌
abbrev pub ◌>>=◌ : {A B : Type 0} → M A → (A → M B) → M B
◌>>=◌ m k f = let (f', r) = m f in elim r [ ok a ↦ k a f' | err e ↦ (f', err e) ]

abbrev pub ◌>>◌ : {B : Type 0} → M (Unit {0}) → M B → M B
◌>>◌ m k = m >>= λ _. k

abbrev pub pure : {A : Type 0} → A → M A
pure a f = (f, ok a)

abbrev pub lift : {A : Type 0} → Result WalError A → M A
lift r f = (f, r)

-- The outcome of the next call, and the file that waits for the one after it.
abbrev pub outcome : List (Option ℕ) → Option ℕ
outcome [] = none
outcome (o ∷ os) = o

abbrev pub later : List (Option ℕ) → List (Option ℕ)
later [] = []
later (o ∷ os) = os

-- A call that succeeds with the given file and value, or fails and leaves the other file.
abbrev pub attempt : {A : Type 0} → Operation → (ℕ → File) → File → A → M A
attempt op broken done a f = elim (outcome f.faults) [
  | none ↦ (record done { faults = later f.faults }, ok a)
  | some n ↦ (record (broken n) { faults = later f.faults }, err (WalError.io op))
]

unfoldable pub file_len : Operation → M ℕ
file_len op f = attempt op (λ n. f) f (length f.bytes) f

-- `seek(SeekFrom::Start(position))`
unfoldable pub seek : Operation → ℕ → M (Unit {0})
seek op position f = attempt op (λ n. f) (record f { position = position }) tt f

-- `read_exact`: past the end of the file it fails.
unfoldable pub read_exact : Operation → ℕ → M (List ℕ)
read_exact op n f =
    if leb (f.position + n) (length f.bytes)
    then attempt op (λ k. f) (record f { position = f.position + n })
        (take n (drop f.position f.bytes)) f
    else (f, err (WalError.io op))

-- The bytes after writing at a position within the file.
unfoldable pub overwrite : List ℕ → ℕ → List ℕ → List ℕ
overwrite bytes position new = take position bytes ++ (new ++ drop (position + length new) bytes)

unfoldable pub write_all : Operation → List ℕ → M (Unit {0})
unfolding overwrite
write_all op new f =
    attempt op (λ n. record f { bytes = overwrite f.bytes f.position (take n new) })
      (record f { bytes = overwrite f.bytes f.position new; position = f.position + length new }) tt
      f

unfoldable pub set_len : Operation → ℕ → M (Unit {0})
set_len op n f = attempt op (λ k. f) (record f { bytes = take n f.bytes }) tt f

unfoldable pub sync_data : Operation → M (Unit {0})
sync_data op f = attempt op (λ n. f) f tt f

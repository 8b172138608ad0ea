-- ===== src/State/Latest.antt =====
-- The loops of ReplaceFiles in internal/state/db.go: the tables that they leave.
use torbox_fuse_go.Base.{
  All-map, if_neg, Bool-cases, if_pos, inr, inl, ◌∙◌, Option-cases, All, lookup-insert, insert,
  Ensures-bind, Ensures-ok, lookup, Ensures, ite, ◌≡◌, refl, Bool, true, false, ◌||◌, Option, none,
  some, List, [], ◌∷◌, Str, Str-discrete, if◌then◌else◌,
}
use torbox_fuse_go.State.{Statement, FileRecord, insert_keys, upsert_all}
use torbox_fuse_go.State.Tables.{dropped-insert, is_some, has_key, dropped}

-- The last record of a key.
abbrev pub latest : Str → List FileRecord → Option FileRecord
latest k [] = none
latest k (f ∷ fs) = elim (latest k fs) [
  | some g ↦ some g
  | none ↦ ite (Str-discrete f.content_key k) (some f) none
]

abbrev pub listed : List FileRecord → Str → Bool
listed fs k = is_some (latest k fs)

abbrev pub or_else {ℓ} : {A : Type ℓ} → Option A → Option A → Option A
or_else (some a) o = some a
or_else none o = o

pub latest-insert :
    (k : Str) (f : FileRecord) (fs : List FileRecord) (table : List (Str × FileRecord))
    → or_else (latest k fs) (lookup Str-discrete k (insert Str-discrete f.content_key f table))
      ≡ or_else (latest k (f ∷ fs)) (lookup Str-discrete k table)
latest-insert k f fs table =
    let put = lookup-insert Str-discrete f.content_key k f table in
    elim (Option-cases (latest k fs)) [
      | inl no_later ↦ elim (Str-discrete f.content_key k) [
        | yes same ↦
            rw
              (
                no_later,
                put,
                if_pos (Str-discrete f.content_key k) same,
                if_pos (Str-discrete f.content_key k) same,
              )
              refl
        | no ne ↦
            rw
              (
                no_later,
                put,
                if_neg (Str-discrete f.content_key k) ne,
                if_neg (Str-discrete f.content_key k) ne,
              )
              refl
      ]
      | inr (g, later) ↦ rw later refl
    ]

-- Behind a full loop of inserts a key has its last record, or what it had.
pub upsert_all-latest :
    (fails : Statement → Bool) (fs : List FileRecord) (table : List (Str × FileRecord))
    → Ensures
        (λ after.
          (k : Str)
          → lookup Str-discrete k after ≡ or_else (latest k fs) (lookup Str-discrete k table))
        (upsert_all fails fs table)
unfolding upsert_all
upsert_all-latest fails [] table = Ensures-ok table (λ k. refl)
upsert_all-latest fails (f ∷ fs) table = Ensures-bind _ _ λ _ _.
    let t = insert Str-discrete f.content_key f table in
    record {
      holds =
          λ after e k. (upsert_all-latest fails fs t).holds after e k ∙ latest-insert k f fs table;
    }

module _ (keep : Str → Bool) where
  pub upsert_all-dropped :
      (fails : Statement → Bool) (fs : List FileRecord) (table : List (Str × FileRecord))
      → All (λ f. keep f.content_key ≡ true) fs
      → Ensures (λ after. dropped keep after ≡ dropped keep table) (upsert_all fails fs table)
  unfolding upsert_all
  upsert_all-dropped fails [] table h = Ensures-ok table refl
  upsert_all-dropped fails (f ∷ fs) table h = Ensures-bind _ _ λ _ _.
      let t = insert Str-discrete f.content_key f table in
      record {
        holds = λ after e.
            (upsert_all-dropped fails fs t h.1).holds after e
            ∙ dropped-insert keep f.content_key f table h.0;
      }

abbrev pub put_key : Str → List (Str × Unit {0}) → List (Str × Unit {0})
put_key key keys = if has_key key keys then keys else insert Str-discrete key tt keys

put_key-listed :
    (k : Str) (f : FileRecord) (fs : List FileRecord) (keys : List (Str × Unit {0}))
    → (listed fs k || has_key k (put_key f.content_key keys))
      ≡ (listed (f ∷ fs) k || has_key k keys)
put_key-listed k f fs keys =
    let key = f.content_key in
    let put = lookup-insert Str-discrete key k tt keys in
    elim (Option-cases (latest k fs)) [
      | inr (g, later) ↦ rw later refl
      | inl no_later ↦ elim (Str-discrete key k) [
        | yes same ↦ elim (Bool-cases (has_key key keys)) [
          | inl old ↦ rw (no_later, old, if_pos (Str-discrete key k) same, ← same) old
          | inr new ↦
              rw
                (
                  no_later,
                  new,
                  put,
                  if_pos (Str-discrete key k) same,
                  if_pos (Str-discrete key k) same,
                )
                refl
        ]
        | no ne ↦ elim (Bool-cases (has_key key keys)) [
          | inl old ↦ rw (no_later, old, if_neg (Str-discrete key k) ne) refl
          | inr new ↦
              rw
                (no_later, new, put, if_neg (Str-discrete key k) ne, if_neg (Str-discrete key k) ne)
                refl
        ]
      ]
    ]

-- The keys of the temporary table are those of the records.
pub insert_keys-listed :
    (fails : Statement → Bool) (fs : List FileRecord) (keys : List (Str × Unit {0}))
    → Ensures
        (λ after. (k : Str) → has_key k after ≡ (listed fs k || has_key k keys))
        (insert_keys fails fs keys)
unfolding insert_keys
insert_keys-listed fails [] keys = Ensures-ok keys (λ k. refl)
insert_keys-listed fails (f ∷ fs) keys = Ensures-bind _ _ λ _ _. record {
  holds = λ after e k.
      (insert_keys-listed fails fs (put_key f.content_key keys)).holds after e k
      ∙ put_key-listed k f fs keys;
}

listed_later :
    (f : FileRecord) (fs : List FileRecord) (k : Str)
    → listed fs k ≡ true
    → listed (f ∷ fs) k ≡ true
listed_later f fs k h = elim (Option-cases (latest k fs)) [
  | inl missing ↦ absurd (cc (rw missing at h))
  | inr (g, found) ↦ rw found refl
]

listed_now : (f : FileRecord) (fs : List FileRecord) → listed (f ∷ fs) f.content_key ≡ true
listed_now f fs = elim (Option-cases (latest f.content_key fs)) [
  | inl missing ↦ rw (missing, if_pos (Str-discrete f.content_key f.content_key) refl) refl
  | inr (g, found) ↦ rw found refl
]

pub listed_all : (fs : List FileRecord) → All (λ f. listed fs f.content_key ≡ true) fs
listed_all [] = tt
listed_all (f ∷ fs) =
    (listed_now f fs, All-map _ _ (λ g h. listed_later f fs g.content_key h) fs (listed_all fs))

pub or_false_lem : (b : Bool) → (b || false) ≡ b
or_false_lem true = refl
or_false_lem false = refl

-- ===== src/Serializers/Spelling.antt =====
-- The spellings of a job type that `to_internal_value` (jobs/serializers.py) reads alike.
use Prim.Native.Char.{Char, code}
use mathlib.Core.List.{reverse, reverse-append, reverse-cons, reverse-reverse, append-nil}
use text.Mathlib.TextBridge.{of_list, to_list-of_list}
use mt_jobs.Base.{
  String, true, false, List, [], ◌∷◌, ◌++◌, ◌==◌, ◌≡◌, ◌≤◌, ◌⊎◌, inl, inr, refl, ap, map, All,
  Bool-cases, arith,
}
use mt_jobs.Models.Job.{JobType, type_value}
use mt_jobs.Serializers.{Unicode, drop_spaces, strip, upper, underscored, normalise}

-- What Unicode says of white space: it has no upper case, and no letter from A to Z is one.
pub record IsUnicode (u : Unicode) : Type 0 where
  pub space : u.is_space " " ≡ true
  pub space_keeps : (c : Char) → u.is_space c ≡ true → u.to_upper c ≡ c ∷ []
  pub letter : (c : Char) → 65 ≤ code c → code c ≤ 90 → u.is_space c ≡ false

-- A character that may stand for another one of the canonical text: a letter in either case, and a
-- space for an underscore.
abbrev pub Stands : Unicode → Char → Char → Type 0
Stands u c v = (u.to_upper c ≡ v ∷ []) ⊎ ((c ≡ " ") × (v ≡ "_"))

abbrev pub Spelled : Unicode → List Char → List Char → Type 0
Spelled u [] [] = Unit
Spelled u [] (v ∷ vs) = ⊥
Spelled u (c ∷ w) [] = ⊥
Spelled u (c ∷ w) (v ∷ vs) = Stands u c v × Spelled u w vs

abbrev pub Blank : Unicode → List Char → Type 0
Blank u s = All (λ c. u.is_space c ≡ true) s

abbrev IsLetter : Char → Type 0
IsLetter v = (65 ≤ code v) × (code v ≤ 90)

-- The characters of a type.
abbrev pub canonical : JobType → List Char
canonical JobType.reports = "R" ∷ "E" ∷ "P" ∷ "O" ∷ "R" ∷ "T" ∷ "S" ∷ []
canonical JobType.data_processing =
    "D" ∷ "A" ∷ "T" ∷ "A" ∷ "_" ∷ "P" ∷ "R" ∷ "O" ∷ "C" ∷ "E" ∷ "S" ∷ "S" ∷ "I" ∷ "N" ∷ "G" ∷ []
canonical JobType.synchronization =
    "S" ∷ "Y" ∷ "N" ∷ "C" ∷ "H" ∷ "R" ∷ "O" ∷ "N" ∷ "I" ∷ "Z" ∷ "A" ∷ "T" ∷ "I" ∷ "O" ∷ "N" ∷ []
canonical JobType.ai_processing =
    "A" ∷ "I" ∷ "_" ∷ "P" ∷ "R" ∷ "O" ∷ "C" ∷ "E" ∷ "S" ∷ "S" ∷ "I" ∷ "N" ∷ "G" ∷ []
canonical JobType.notification =
    "N" ∷ "O" ∷ "T" ∷ "I" ∷ "F" ∷ "I" ∷ "C" ∷ "A" ∷ "T" ∷ "I" ∷ "O" ∷ "N" ∷ []

canonical-type_value : (t : JobType) → of_list (canonical t) ≡ type_value t
unfolding type_value
canonical-type_value JobType.reports = refl
canonical-type_value JobType.data_processing = refl
canonical-type_value JobType.synchronization = refl
canonical-type_value JobType.ai_processing = refl
canonical-type_value JobType.notification = refl

-- A text that spells a type: padded with white space, each letter in either case, and spaces for
-- underscores.
pub record Spells (u : Unicode) (t : JobType) (s : String) : Type 0 where
  pub before : List Char
  pub word : List Char
  pub behind : List Char
  pub is_text : s ≡ of_list (before ++ (word ++ behind))
  pub before_blank : Blank u before
  pub behind_blank : Blank u behind
  pub spelled : Spelled u word (canonical t)

module _ (u : Unicode) (laws : IsUnicode u) where
  drop_spaces-Blank : (pad s : List Char) → Blank u pad → drop_spaces u (pad ++ s) ≡ drop_spaces u s
  unfolding drop_spaces
  drop_spaces-Blank [] s b = refl
  drop_spaces-Blank (c ∷ pad) s b = rw b.0 (drop_spaces-Blank pad s b.1)

  letter-no-space : (c v : Char) → Stands u c v → IsLetter v → u.is_space c ≡ false
  letter-no-space c v (inl e) (lo, hi) = elim (Bool-cases (u.is_space c)) [
    | inr no_space ↦ no_space
    | inl blank ↦ let p : c ≡ v = cc (laws.space_keeps c blank, e) in rw p (laws.letter v lo hi)
  ]
  letter-no-space c v (inr (e, f)) (lo, hi) =
      let q : code v ≡ 95 = ap code f in absurd (omega arith)

  -- A word that begins with a letter begins with no white space.
  drop_spaces-Spelled :
      (w vs s : List Char) (v : Char)
      → Spelled u w (v ∷ vs)
      → IsLetter v
      → drop_spaces u (w ++ s) ≡ w ++ s
  unfolding drop_spaces
  drop_spaces-Spelled [] vs s v h l = absurd h
  drop_spaces-Spelled (c ∷ w) vs s v h l = rw (letter-no-space c v h.0 l)

  Spelled-append :
      (w vs : List Char) (c v : Char)
      → Spelled u w vs
      → Stands u c v
      → Spelled u (w ++ c ∷ []) (vs ++ v ∷ [])
  Spelled-append [] [] c v h k = (k, tt)
  Spelled-append [] (x ∷ vs) c v h k = absurd h
  Spelled-append (d ∷ w) [] c v h k = absurd h
  Spelled-append (d ∷ w) (x ∷ vs) c v h k = (h.0, Spelled-append w vs c v h.1 k)

  Spelled-reverse : (w vs : List Char) → Spelled u w vs → Spelled u (reverse w) (reverse vs)
  Spelled-reverse [] [] h = tt
  Spelled-reverse [] (x ∷ vs) h = absurd h
  Spelled-reverse (d ∷ w) [] h = absurd h
  Spelled-reverse (d ∷ w) (x ∷ vs) h =
      rw (reverse-cons d w, reverse-cons x vs)
        (Spelled-append (reverse w) (reverse vs) d x (Spelled-reverse w vs h.1) h.0)

  Blank-append :
      (s : List Char) (c : Char) → Blank u s → u.is_space c ≡ true → Blank u (s ++ c ∷ [])
  Blank-append [] c b e = (e, tt)
  Blank-append (d ∷ s) c b e = (b.0, Blank-append s c b.1 e)

  Blank-reverse : (s : List Char) → Blank u s → Blank u (reverse s)
  Blank-reverse [] b = tt
  Blank-reverse (c ∷ s) b =
      rw (reverse-cons c s) (Blank-append (reverse s) c (Blank-reverse s b.1) b.0)

  upper-Spelled :
      (w vs : List Char)
      → Spelled u w vs
      → All (λ v. (code v == 32) ≡ false) vs
      → map underscored (upper u w) ≡ vs
  unfolding upper
  upper-Spelled [] [] h n = refl
  upper-Spelled [] (x ∷ vs) h n = absurd h
  upper-Spelled (d ∷ w) [] h n = absurd h
  upper-Spelled (c ∷ w) (v ∷ vs) (inl e, h) n =
      rw (e, n.0) (ap (λ (s : List Char). v ∷ s) (upper-Spelled w vs h n.1))
  upper-Spelled (c ∷ w) (v ∷ vs) (inr (e, f), h) n =
      rw (e, f, laws.space_keeps " " laws.space)
        (ap (λ (s : List Char). "_" ∷ s) (upper-Spelled w vs h n.1))

  settled : (w vs : List Char) (v : Char) → Spelled u w (v ∷ vs) → IsLetter v → drop_spaces u w ≡ w
  settled w vs v h l = rw append-nil at (drop_spaces-Spelled w vs [] v h l)

  -- Padding is stripped from a word between letters.
  strip-Spelled :
      (pre w post vs back : List Char) (v x : Char)
      → Blank u pre
      → Blank u post
      → Spelled u w (v ∷ vs)
      → reverse (v ∷ vs) ≡ x ∷ back
      → IsLetter v
      → IsLetter x
      → strip u (pre ++ (w ++ post)) ≡ w
  unfolding strip
  strip-Spelled pre w post vs back v x b p h r l m =
      let flipped : Spelled u (reverse w) (x ∷ back) = rw (← r) (Spelled-reverse w (v ∷ vs) h) in
      rw
        (
          drop_spaces-Blank pre (w ++ post) b,
          drop_spaces-Spelled w vs post v h l,
          reverse-append w post,
          drop_spaces-Blank (reverse post) (reverse w) (Blank-reverse post p),
        )
        (rw (settled (reverse w) back x flipped m) (reverse-reverse w))

  strip-canonical :
      (t : JobType) (pre w post : List Char)
      → Blank u pre
      → Blank u post
      → Spelled u w (canonical t)
      → strip u (pre ++ (w ++ post)) ≡ w
  strip-canonical JobType.reports pre w post b p h =
      strip-Spelled pre w post _ _ _ _ b p h refl (omega arith) (omega arith)
  strip-canonical JobType.data_processing pre w post b p h =
      strip-Spelled pre w post _ _ _ _ b p h refl (omega arith) (omega arith)
  strip-canonical JobType.synchronization pre w post b p h =
      strip-Spelled pre w post _ _ _ _ b p h refl (omega arith) (omega arith)
  strip-canonical JobType.ai_processing pre w post b p h =
      strip-Spelled pre w post _ _ _ _ b p h refl (omega arith) (omega arith)
  strip-canonical JobType.notification pre w post b p h =
      strip-Spelled pre w post _ _ _ _ b p h refl (omega arith) (omega arith)

  no_spaces : (t : JobType) → All (λ v. (code v == 32) ≡ false) (canonical t)
  no_spaces JobType.reports = ground arith
  no_spaces JobType.data_processing = ground arith
  no_spaces JobType.synchronization = ground arith
  no_spaces JobType.ai_processing = ground arith
  no_spaces JobType.notification = ground arith

  pub normalise-Spells : (t : JobType) (s : String) → Spells u t s → normalise u s ≡ type_value t
  unfolding normalise
  normalise-Spells t s h =
      rw
        (
          h.is_text,
          to_list-of_list (h.before ++ (h.word ++ h.behind)),
          strip-canonical t h.before h.word h.behind h.before_blank h.behind_blank h.spelled,
          upper-Spelled h.word (canonical t) h.spelled (no_spaces t),
        )
        (canonical-type_value t)

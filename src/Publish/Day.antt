-- ===== src/Publish/Day.antt =====
-- bin/publish_run.py: the day a run is published under, and whether a run is published.
use pyg_knowledge_graph_buil.Base.{
  ℕ, [], ◌∷◌, true, false, none, some, inl, inr, refl, List, Bool, if◌then◌else◌, not, ◌&&◌, Option,
  ◌==◌, ◌≡◌, ◌↔◌, ◌⊎◌, Bool-cases, ap, subst, arith, sym, all, ==_iff,
}
use pyg_knowledge_graph_buil.Base.Texts.{Text, among, text_lt}
use pyg_knowledge_graph_buil.Base.Result.{Result, ok, raise}
use pyg_knowledge_graph_buil.Sources.{names_of, is_none, sorted_texts}
use pyg_knowledge_graph_buil.Publish.{Aws}

-- The reasons to refuse a day.
pub data DayError : Type 0 where
  not_a_day other_day : DayError
  days_named : List Text → DayError

abbrev pub dash : ℕ
dash = 45

-- `\d{4}-\d{2}-\d{2}`, where `is_digit` says what \d takes.
unfoldable pub is_day : (ℕ → Bool) → Text → Bool
is_day is_digit (a ∷ b ∷ c ∷ d ∷ e ∷ f ∷ g ∷ h ∷ i ∷ j ∷ []) =
    is_digit a
    && is_digit b
    && is_digit c
    && is_digit d
    && e == dash
    && is_digit f
    && is_digit g
    && h == dash
    && is_digit i
    && is_digit j
is_day is_digit _ = false

abbrev pub first_given : Text → Text → Text
first_given [] recorded = recorded
first_given (c ∷ given) recorded = c ∷ given

abbrev pub only_day : List Text → Result DayError Text
only_day (day ∷ []) = ok day
only_day days = raise (days_named days)

-- A day that is given, and the days that the paths name.
unfoldable pub check_day : (ℕ → Bool) → List Text → Text → Result DayError Text
unfolding is_day among
check_day is_digit named given =
    if not (is_day is_digit given)
    then raise not_a_day
    else if not (is_none named) && not (among given named)
    then raise other_day
    else ok given

-- `data_day`, from the days that the source paths name, the variable, and the day in dataset.json, each
-- stripped.
unfoldable pub data_day : (ℕ → Bool) → List Text → Text → Text → Result DayError Text
unfolding check_day sorted_texts
data_day is_digit named variable recorded =
    let given : Text = first_given variable recorded in
    if not (is_none given) then check_day is_digit named given else only_day (sorted_texts named)

-- `recorded_tables_times`: what each manifest records, if both of its times, and of those the one that
-- finished last.
unfoldable pub latest : List (Option (Text × Text)) → Option (Text × Text) → Option (Text × Text)
unfolding text_lt
latest [] found = found
latest (none ∷ rest) found = latest rest found
latest (some times ∷ rest) none = latest rest (some times)
latest (some (started, finished) ∷ rest) (some best) =
    let later = latest rest (some (started, finished)) in
    let kept = latest rest (some best) in if text_lt best.1 finished then later else kept

-- `check_published`, over the places and markers wanted: the exit code.
unfoldable pub check_published {ℓ} : {W : Type ℓ} → Aws W → List (Text × Text) → W → W × ℕ
unfolding among
check_published aws [] w = (w, 0)
check_published aws ((place, marker) ∷ rest) w =
    let (w', listed) = aws.listing w place in
    let others = check_published aws rest w' in
    elim listed [
      | none ↦ (w', 1)
      | some have ↦ if not (among marker (names_of have)) then (w', 1) else others
    ]

only_day-ok : (days : List Text) (day : Text) → (only_day days ≡ ok day) ↔ (days ≡ day ∷ [])
only_day-ok [] day = (λ h. cc, λ h. cc)
only_day-ok (d ∷ []) day = (λ h. cc, λ h. cc)
only_day-ok (d ∷ e ∷ rest) day = (λ h. cc, λ h. cc)

is_none-empty : (texts : List Text) → is_none texts ≡ true → texts ≡ []
is_none-empty [] h = refl
is_none-empty (t ∷ texts) h = cc

check_day-ok :
    (is_digit : ℕ → Bool) (named : List Text) (given day : Text)
    → (check_day is_digit named given ≡ ok day) ↔ (
        (given ≡ day)
        × (is_day is_digit given ≡ true)
        × (is_none named ≡ true ⊎ among given named ≡ true))
unfolding check_day
check_day-ok is_digit named given day = elim (Bool-cases (is_day is_digit given)) [
  | inr e ↦ rw e (λ h. cc, λ (_, h, _). cc)
  | inl e ↦ elim (Bool-cases (is_none named)) [
    | inl f ↦ rw (e, f) (λ h. (cc, refl, inl refl), λ (h, _, _). ap ok h)
    | inr f ↦ elim (Bool-cases (among given named)) [
      | inl g ↦ rw (e, f, g) (λ h. (cc, refl, inr refl), λ (h, _, _). ap ok h)
      | inr g ↦ rw (e, f, g) (λ h. cc, λ (_, _, h). elim h [ inl a ↦ cc | inr a ↦ cc ])
    ]
  ]
]

-- Four digits, a dash, two digits, a dash and two digits.
abbrev pub IsDay : (ℕ → Bool) → Text → Type 0
IsDay is_digit text =
    (a : ℕ) × (b : ℕ) × (c : ℕ) × (d : ℕ) × (e : ℕ) × (f : ℕ) × (g : ℕ) × (h : ℕ) × (text
      ≡ a ∷ b ∷ c ∷ d ∷ 45 ∷ e ∷ f ∷ 45 ∷ g ∷ h ∷ [])
    × (all is_digit (a ∷ b ∷ c ∷ d ∷ e ∷ f ∷ g ∷ h ∷ []) ≡ true)

-- The day is the variable, or where that is empty, a day that is recorded.
abbrev pub IsGiven : Text → Text → Text → Type 0
IsGiven variable recorded day =
    (¬ (variable ≡ []) × (variable ≡ day))
    ⊎ ((variable ≡ []) × (¬ (recorded ≡ []) × (recorded ≡ day)))

digits_and_dashes :
    (a b c d x e f y g h : Bool)
    → (a && b && c && d && x && e && f && y && g && h) ≡ true
    → (x ≡ true)
      × (y ≡ true)
      × ((a && (b && (c && (d && (e && (f && (g && (h && true)))))))) ≡ true)
digits_and_dashes a b c d x e f y g h k = ground (arith)

all_digits :
    (a b c d e f g h : Bool)
    → (a && (b && (c && (d && (e && (f && (g && (h && true)))))))) ≡ true
    → (a && b && c && d && true && e && f && true && g && h) ≡ true
all_digits a b c d e f g h k = ground (arith)

is_day-digits :
    (is_digit : ℕ → Bool) (text : Text) → is_day is_digit text ≡ true → IsDay is_digit text
unfolding is_day
is_day-digits is_digit [] k = cc
is_day-digits is_digit (_ ∷ []) k = cc
is_day-digits is_digit (_ ∷ _ ∷ []) k = cc
is_day-digits is_digit (_ ∷ _ ∷ _ ∷ []) k = cc
is_day-digits is_digit (_ ∷ _ ∷ _ ∷ _ ∷ []) k = cc
is_day-digits is_digit (_ ∷ _ ∷ _ ∷ _ ∷ _ ∷ []) k = cc
is_day-digits is_digit (_ ∷ _ ∷ _ ∷ _ ∷ _ ∷ _ ∷ []) k = cc
is_day-digits is_digit (_ ∷ _ ∷ _ ∷ _ ∷ _ ∷ _ ∷ _ ∷ []) k = cc
is_day-digits is_digit (_ ∷ _ ∷ _ ∷ _ ∷ _ ∷ _ ∷ _ ∷ _ ∷ []) k = cc
is_day-digits is_digit (_ ∷ _ ∷ _ ∷ _ ∷ _ ∷ _ ∷ _ ∷ _ ∷ _ ∷ []) k = cc
is_day-digits is_digit (_ ∷ _ ∷ _ ∷ _ ∷ _ ∷ _ ∷ _ ∷ _ ∷ _ ∷ _ ∷ _ ∷ _) k = cc
is_day-digits is_digit (a ∷ b ∷ c ∷ d ∷ x ∷ e ∷ f ∷ y ∷ g ∷ h ∷ []) k =
    let (first, second, digits) =
      digits_and_dashes (is_digit a) (is_digit b) (is_digit c) (is_digit d) (x == dash) (is_digit e)
        (is_digit f) (y == dash) (is_digit g) (is_digit h) k in
    (a, b, c, d, e, f, g, h, rw ((==_iff x dash).0 first, (==_iff y dash).0 second) refl, digits)

digits-is_day :
    (is_digit : ℕ → Bool) (text : Text) → IsDay is_digit text → is_day is_digit text ≡ true
unfolding is_day
digits-is_day is_digit text (a, b, c, d, e, f, g, h, same, digits) = rw same (
    all_digits (is_digit a) (is_digit b) (is_digit c) (is_digit d) (is_digit e) (is_digit f)
      (is_digit g) (is_digit h) digits)

-- A day that is given, written as a day, and where the paths name days, one of them.
check_day-given :
    (is_digit : ℕ → Bool) (named : List Text) (given day : Text)
    → (check_day is_digit named given ≡ ok day)
      ↔ ((given ≡ day) × (IsDay is_digit day × (named ≡ [] ⊎ among day named ≡ true)))
check_day-given is_digit named given day =
    let (forth, back) = check_day-ok is_digit named given day in
    (
      λ e.
          let (same, written, allowed) = forth e in
          (
            same,
            (
              is_day-digits is_digit day (subst (λ t. is_day is_digit t ≡ true) same written),
              elim allowed [
                | inl none_named ↦ inl (is_none-empty named none_named)
                | inr one ↦ inr (subst (λ t. among t named ≡ true) same one)
              ],
            ),
          ),
      λ (same, (written, allowed)). back (
        same,
        subst (λ t. is_day is_digit t ≡ true) (sym same) (digits-is_day is_digit day written),
        elim allowed [
          | inl empty ↦ inl (ap is_none empty)
          | inr one ↦ inr (subst (λ t. among t named ≡ true) (sym same) one)
        ],
      ),
    )

-- data_day returns a day exactly where it is the variable, or with the variable empty the day in
-- dataset.json, and is written as four digits, two and two with dashes, and is among the days the paths
-- name if they name any; or where both are empty, and it is the only day they name.
pub data_day-ok :
    (is_digit : ℕ → Bool) (named : List Text) (variable recorded day : Text)
    → (data_day is_digit named variable recorded ≡ ok day) ↔ (
        (IsGiven variable recorded day
          × (IsDay is_digit day × (named ≡ [] ⊎ among day named ≡ true)))
        ⊎ ((variable ≡ []) × ((recorded ≡ []) × (sorted_texts named ≡ day ∷ []))))
unfolding data_day
data_day-ok is_digit named [] [] day =
    let (only, one) = only_day-ok (sorted_texts named) day in
    (
      λ e. inr (refl, (refl, only e)),
      λ h. elim h [
        | inl (inl (given, _), _) ↦ absurd (given refl)
        | inl (inr (_, (given, _)), _) ↦ absurd (given refl)
        | inr (_, (_, o)) ↦ one o
      ],
    )
data_day-ok is_digit named [] (c ∷ recorded) day =
    let (forth, back) = check_day-given is_digit named (c ∷ recorded) day in
    (
      λ e. let (same, rest) = forth e in inl (inr (refl, ((λ bad. cc), same)), rest),
      λ h. elim h [
        | inl (inl (given, _), _) ↦ absurd (given refl)
        | inl (inr (_, (_, same)), rest) ↦ back (same, rest)
        | inr (_, (bad, _)) ↦ cc
      ],
    )
data_day-ok is_digit named (c ∷ variable) recorded day =
    let (forth, back) = check_day-given is_digit named (c ∷ variable) day in
    (
      λ e. let (same, rest) = forth e in inl (inl ((λ bad. cc), same), rest),
      λ h. elim h [
        | inl (inl (_, same), rest) ↦ back (same, rest)
        | inl (inr (bad, _), _) ↦ cc
        | inr (bad, _) ↦ cc
      ],
    )

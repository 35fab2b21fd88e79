-- ===== src/Program/Records/Order.antt =====
-- What the loop over one pipeline's records finds, in any order of the records.
use mathlib.Core.List.{Permᴰ, Memᴰ}
use proxyengine.Base.{
  ℕ, ◌+◌, ◌≤◌, ◌≡◌, refl, ap, ◌∙◌, ◌⊎◌, inl, inr, Bool-cases, some, List, [], ◌∷◌, arith, ltb,
  if◌then◌else◌, ok,
}
use proxyengine.Program.Records.{
  ConData, last, closes, is_completed, completed_count, Evaluation, first_of, last_of, completed_by,
  evaluate,
}
use proxyengine.Tcp.{closed, state_eq}

pub last-Mem {ℓ} :
    {A : Type ℓ} (x : A) (xs : List A) → (a : A) × (last (x ∷ xs) ≡ some a) × Memᴰ a (x ∷ xs)
last-Mem x [] = (x, refl, Memᴰ.head refl)
last-Mem x (y ∷ ys) = let (a, e, m) = last-Mem y ys in (a, e, Memᴰ.tail m)

pub Perm-Mem {ℓ} : {A : Type ℓ} {xs ys : List A} → Permᴰ xs ys → (a : A) → Memᴰ a xs → Memᴰ a ys
Perm-Mem Permᴰ.nil a m = elim m [ ]
Perm-Mem (Permᴰ.cons e p) a (Memᴰ.head h) = Memᴰ.head (h ∙ e)
Perm-Mem (Permᴰ.cons e p) a (Memᴰ.tail m) = Memᴰ.tail (Perm-Mem p a m)
Perm-Mem (Permᴰ.swap e f) a (Memᴰ.head h) = Memᴰ.tail (Memᴰ.head (h ∙ e))
Perm-Mem (Permᴰ.swap e f) a (Memᴰ.tail (Memᴰ.head h)) = Memᴰ.head (h ∙ f)
Perm-Mem (Permᴰ.swap e f) a (Memᴰ.tail (Memᴰ.tail m)) = Memᴰ.tail (Memᴰ.tail m)
Perm-Mem (Permᴰ.trans p q) a m = Perm-Mem q a (Perm-Mem p a m)

module _ ⦃C : ConData⦄ where
  open C use {Rec}

  abbrev weight : Rec → ℕ
  weight c = if is_completed (C.release_cause c) (C.last_state c) then 1 else 0

  crossed : (x y x' y' n : ℕ) → x ≡ y' → y ≡ x' → x + (y + n) ≡ x' + (y' + n)
  crossed x y x' y' n e f = omega (arith, e, f)

  pub completed_count-Perm :
      {xs ys : List Rec} → Permᴰ xs ys → completed_count xs ≡ completed_count ys
  unfolding completed_count
  completed_count-Perm Permᴰ.nil = refl
  completed_count-Perm (Permᴰ.cons {a = a} {b = b} {l₁ = l₁} {l₂ = l₂} e p) =
      ap (λ (n : ℕ). n + completed_count l₁) (ap weight e)
      ∙ ap (λ (n : ℕ). weight b + n) (completed_count-Perm p)
  completed_count-Perm (Permᴰ.swap {a = a} {b = b} {a' = a'} {b' = b'} {l = l} e f) =
      crossed (weight a) (weight b) (weight a') (weight b') (completed_count l) (ap weight e)
        (ap weight f)
  completed_count-Perm (Permᴰ.trans p q) = completed_count-Perm p ∙ completed_count-Perm q

  completed_step : (c : Rec) (n : ℕ) → completed_by c n ≡ ok (weight c + n)
  completed_step c n = elim (Bool-cases (closes (C.release_cause c))) [
    | inr other ↦ rw other (ap ok (omega arith))
    | inl yes_ ↦
        rw (yes_, C.last_states c)
          (elim (Bool-cases (state_eq (C.last_state c) closed)) [
            | inl end ↦ rw end (ap ok (omega arith))
            | inr open_ ↦ rw open_ (ap ok (omega arith))
          ])
  ]

  -- What the loop has found behind the records `cs`, from `e` on.
  pub record Loops (cs : List Rec) (e e' : Evaluation) : Type 0 where
    pub counted : e'.completed ≡ completed_count cs + e.completed
    pub min_in : Memᴰ e'.min cs ⊎ (e'.min ≡ e.min)
    pub max_in : Memᴰ e'.max cs ⊎ (e'.max ≡ e.max)
    pub lowest : (c : Rec) → Memᴰ c cs → first_of e'.min ≤ first_of c
    pub highest : (c : Rec) → Memᴰ c cs → last_of c ≤ last_of e'.max
    pub lower : first_of e'.min ≤ first_of e.min
    pub higher : last_of e.max ≤ last_of e'.max

  -- One record.
  abbrev pub chosen_min : Rec → Evaluation → Rec
  chosen_min c e = if ltb (first_of c) (first_of e.min) then c else e.min

  abbrev pub chosen_max : Rec → Evaluation → Rec
  chosen_max c e = if ltb (last_of e.max) (last_of c) then c else e.max

  min_lem :
      (c : Rec) (e : Evaluation)
      → ((chosen_min c e ≡ c) ⊎ (chosen_min c e ≡ e.min))
        × (first_of (chosen_min c e) ≤ first_of c)
        × (first_of (chosen_min c e) ≤ first_of e.min)
  min_lem c e = elim (Bool-cases (ltb (first_of c) (first_of e.min))) [
    | inl yes_ ↦ rw yes_ (inl refl, omega arith, ground (arith, yes_))
    | inr not_ ↦ rw not_ (inr refl, ground (arith, not_), omega arith)
  ]

  max_lem :
      (c : Rec) (e : Evaluation)
      → ((chosen_max c e ≡ c) ⊎ (chosen_max c e ≡ e.max))
        × (last_of c ≤ last_of (chosen_max c e))
        × (last_of e.max ≤ last_of (chosen_max c e))
  max_lem c e = elim (Bool-cases (ltb (last_of e.max) (last_of c))) [
    | inl yes_ ↦ rw yes_ (inl refl, omega arith, ground (arith, yes_))
    | inr not_ ↦ rw not_ (inr refl, ground (arith, not_), omega arith)
  ]

  joined :
      (a b d c : Rec) (cs : List Rec)
      → (Memᴰ a cs ⊎ (a ≡ d))
      → ((d ≡ c) ⊎ (d ≡ b))
      → Memᴰ a (c ∷ cs) ⊎ (a ≡ b)
  joined a b d c cs (inl m) _ = inl (Memᴰ.tail m)
  joined a b d c cs (inr e) (inl f) = inl (Memᴰ.head (e ∙ f))
  joined a b d c cs (inr e) (inr f) = inr (e ∙ f)

  least :
      (m : ℕ) (c : Rec) (cs : List Rec) (bound : Rec → ℕ)
      → m ≤ bound c
      → ((d : Rec) → Memᴰ d cs → m ≤ bound d)
      → (d : Rec) → Memᴰ d (c ∷ cs)
      → m ≤ bound d
  least m c cs bound first rest d (Memᴰ.head e) = rw (ap bound e) first
  least m c cs bound first rest d (Memᴰ.tail t) = rest d t

  greatest :
      (m : ℕ) (c : Rec) (cs : List Rec) (bound : Rec → ℕ)
      → bound c ≤ m
      → ((d : Rec) → Memᴰ d cs → bound d ≤ m)
      → (d : Rec) → Memᴰ d (c ∷ cs)
      → bound d ≤ m
  greatest m c cs bound first rest d (Memᴰ.head e) = rw (ap bound e) first
  greatest m c cs bound first rest d (Memᴰ.tail t) = rest d t

  counted_none : (n : ℕ) → n ≡ completed_count [] + n
  unfolding completed_count
  counted_none n = omega arith

  counted_more :
      (c : Rec) (cs : List Rec) (k : ℕ)
      → completed_count cs + (weight c + k) ≡ completed_count (c ∷ cs) + k
  unfolding completed_count
  counted_more c cs k = omega arith

  pub evaluate-Loops :
      (cs : List Rec) (e : Evaluation) → (e' : Evaluation) × (evaluate cs e ≡ ok e') × Loops cs e e'
  evaluate-Loops [] e = (
    e,
    refl,
    record {
      counted = counted_none e.completed;
      min_in = inr refl;
      max_in = inr refl;
      lowest = λ c m. elim m [ ];
      highest = λ c m. elim m [ ];
      lower = omega arith;
      higher = omega arith;
    },
  )
  evaluate-Loops (c ∷ cs) e =
      let next : Evaluation = record {
        completed = weight c + e.completed;
        min = chosen_min c e;
        max = chosen_max c e;
      } in
      let (e', ran, l) = evaluate-Loops cs next in
      let (from_min, min_c, min_e) = min_lem c e in
      let (from_max, max_c, max_e) = max_lem c e in
      (
        e',
        rw (completed_step c e.completed) ran,
        record {
          counted = l.counted ∙ counted_more c cs e.completed;
          min_in = joined e'.min e.min next.min c cs l.min_in from_min;
          max_in = joined e'.max e.max next.max c cs l.max_in from_max;
          lowest = least (first_of e'.min) c cs first_of (omega (arith, l.lower, min_c)) l.lowest;
          highest =
              greatest (last_of e'.max) c cs last_of (omega (arith, l.higher, max_c)) l.highest;
          lower = omega (arith, l.lower, min_e);
          higher = omega (arith, l.higher, max_e);
        },
      )

-- ===== src/Program/Main/Rounds.antt =====
-- The main loop's rounds, counted.
use proxyengine.Base.{
  ℕ, zero, suc, ◌+◌, ◌*◌, ◌/◌, ◌%◌, ◌≤◌, ◌<◌, ◌≡◌, refl, ap, Bool-cases, inl, inr, true, false,
  List, [], ◌∷◌, ◌++◌, ◌==◌, if◌then◌else◌, ok, arith,
}
use proxyengine.Program.Records.{ConData}
use proxyengine.Program.Effects.{Act, available_mbufs, slept, Program, ◌>>=◌}
use proxyengine.Program.Main.{main_loop}

module _ ⦃C : ConData⦄ where
  -- `n` rounds from the `k`-th on: each sleeps, and every three hundredth looks at the memory first.
  abbrev pub rounds : ℕ → ℕ → List Act
  rounds k zero = []
  rounds k (suc n) =
      (if k % 300 == 0 then available_mbufs ∷ [] else []) ++ slept 200 ∷ rounds (k + 1) n

  same_test :
      (loops k : ℕ)
      → 0 < loops
      → loops ≤ 300
      → loops % 300 ≡ k % 300
      → (loops == 300) ≡ (k % 300 == 0)
  same_test loops k pos le e = ground arith

  again : (k : ℕ) → (k % 300 == 0) ≡ true → 1 % 300 ≡ (k + 1) % 300
  again k hit = ground arith

  below :
      (loops k : ℕ) → loops ≤ 300 → loops % 300 ≡ k % 300 → (k % 300 == 0) ≡ false → loops + 1 ≤ 300
  below loops k le e missed = ground arith

  main_loop-rounds_from :
      (loops k n : ℕ)
      → 0 < loops
      → loops ≤ 300
      → loops % 300 ≡ k % 300
      → main_loop loops n ≡ (rounds k n, ok tt)
  unfolding main_loop ◌>>=◌
  main_loop-rounds_from loops k zero pos le e = refl
  main_loop-rounds_from loops k (suc n) pos le e =
      rw (same_test loops k pos le e) (elim (Bool-cases (k % 300 == 0)) [
        | inl hit ↦ rw hit (
            ap (λ (m : Program (Unit {0})). (available_mbufs ∷ slept 200 ∷ m.0, m.1))
              (main_loop-rounds_from 1 (k + 1) n (omega arith) (omega arith) (again k hit)))
        | inr missed ↦ rw missed (
            ap (λ (m : Program (Unit {0})). (slept 200 ∷ m.0, m.1))
              (main_loop-rounds_from (loops + 1) (k + 1) n (omega arith) (below loops k le e missed)
                (omega (arith, e))))
      ])

  abbrev pub is_look : Act → ℕ
  is_look available_mbufs = 1
  is_look _ = 0

  abbrev pub millis : Act → ℕ
  millis (slept n) = n
  millis _ = 0

  -- How often the memory was looked at, and how long the program slept.
  abbrev pub looks : List Act → ℕ
  looks [] = 0
  looks (a ∷ as_) = is_look a + looks as_

  abbrev pub slept_millis : List Act → ℕ
  slept_millis [] = 0
  slept_millis (a ∷ as_) = millis a + slept_millis as_

  looks_lem : (k n : ℕ) → looks (rounds k n) + (k + 299) / 300 ≡ (k + n + 299) / 300
  looks_lem k zero = omega arith
  looks_lem k (suc n) = elim (Bool-cases (k % 300 == 0)) [
    | inl hit ↦ rw hit (ground (arith, looks_lem (k + 1) n))
    | inr missed ↦ rw missed (ground (arith, looks_lem (k + 1) n))
  ]

  slept_lem : (k n : ℕ) → slept_millis (rounds k n) ≡ 200 * n
  slept_lem k zero = refl
  slept_lem k (suc n) = elim (Bool-cases (k % 300 == 0)) [
    | inl hit ↦ rw hit (omega (arith, slept_lem (k + 1) n))
    | inr missed ↦ rw missed (omega (arith, slept_lem (k + 1) n))
  ]

  -- From the counter 300, with which the program begins it, the main loop ends with the reading
  -- that shows the flag cleared. It sleeps for 200 ms in each of the rounds before, and looks at
  -- the memory in the first and in every three hundredth after it: once for each 300 rounds begun.
  pub main_loop-rounds :
      (n : ℕ)
      → (main_loop 300 n ≡ (rounds 0 n, ok tt))
        × (looks (rounds 0 n) ≡ (n + 299) / 300)
        × (slept_millis (rounds 0 n) ≡ 200 * n)
  main_loop-rounds n = (
    main_loop-rounds_from 300 0 n (omega arith) (omega arith) refl,
    omega (arith, looks_lem 0 n),
    slept_lem 0 n,
  )

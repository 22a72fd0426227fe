-- ===== src/Queue/Order.antt =====
-- Which message a claim takes.
use news_pipeline.Base.{
  ℕ, ◌≤◌, ◌<◌, Bool, true, false, ◌&&◌, ◌≡◌, refl, ◌⊎◌, inl, inr, Option, none, some, List, [], ◌∷◌,
  ◌++◌, arith, All, ltb, Bool-cases, Option-cases, if◌then◌else◌, subst, sym, ap, ◌∙◌,
}
use news_pipeline.Queue.{Message, is_ready, is_sooner, next_ready, pick}

some_injective : {A : Type 0} {a b : A} → some a ≡ some b → a ≡ b
some_injective h = cc

and-false : (x : Bool) {y : Bool} → y ≡ false → (x && y) ≡ false
and-false x h = ground arith

module _ {P : Type 0} where
  -- No row of the list is ready and sooner than the message.
  abbrev pub IsFirst : ℕ → ℕ → Message P → List (Message P) → Type 0
  IsFirst q now m = All (λ n. (is_ready q now n && is_sooner n m) ≡ false)

  -- The same by the code's own tests.
  abbrev IsTested : ℕ → ℕ → List (Message P) → Option (Message P) → Type 0
  IsTested q now ms none = All (λ n. is_ready q now n ≡ false) ms
  IsTested q now ms (some m) = (is_ready q now m ≡ true) × IsFirst q now m ms

  is_sooner_irrefl : (m : Message P) → is_sooner m m ≡ false
  unfolding is_sooner
  is_sooner_irrefl m = ground arith

  is_sooner-asym : (a b : Message P) → is_sooner a b ≡ true → is_sooner b a ≡ false
  unfolding is_sooner
  is_sooner-asym a b h = ground arith

  -- Nothing sooner than a row that is not itself sooner than another is sooner than that other.
  is_sooner-negative :
      (n r m : Message P)
      → (x : Bool) → (x && is_sooner n r) ≡ false
      → is_sooner r m ≡ false
      → (x && is_sooner n m) ≡ false
  unfolding is_sooner
  is_sooner-negative n r m true h k = ground arith
  is_sooner-negative n r m false h k = refl

  IsFirst-negative :
      (q now : ℕ) (r m : Message P) (ms : List (Message P))
      → is_sooner r m ≡ false
      → IsFirst q now r ms
      → IsFirst q now m ms
  IsFirst-negative q now r m [] k h = tt
  IsFirst-negative q now r m (n ∷ ms) k h =
      (is_sooner-negative n r m (is_ready q now n) h.0 k, IsFirst-negative q now r m ms k h.1)

  IsFirst-none :
      (q now : ℕ) (m : Message P) (ms : List (Message P))
      → All (λ n. is_ready q now n ≡ false) ms
      → IsFirst q now m ms
  IsFirst-none q now m [] h = tt
  IsFirst-none q now m (n ∷ ms) h = (rw h.0, IsFirst-none q now m ms h.1)

  pick-IsTested :
      (q now : ℕ) (m : Message P) (ms : List (Message P)) (rest : Option (Message P))
      → is_ready q now m ≡ true
      → IsTested q now ms rest
      → IsTested q now (m ∷ ms) (some (pick m rest))
  pick-IsTested q now m ms none ready h =
      (ready, (and-false (is_ready q now m) (is_sooner_irrefl m), IsFirst-none q now m ms h))
  pick-IsTested q now m ms (some r) ready h = elim (Bool-cases (is_sooner r m)) [
    | inl sooner ↦
        let chosen : pick m (some r) ≡ r = rw sooner in
        subst (λ c. IsTested q now (m ∷ ms) (some c)) (sym chosen)
          (h.0, (and-false (is_ready q now m) (is_sooner-asym r m sooner), h.1))
    | inr later ↦
        let chosen : pick m (some r) ≡ m = rw later in
        subst (λ c. IsTested q now (m ∷ ms) (some c)) (sym chosen)
          (
            ready,
            (
              and-false (is_ready q now m) (is_sooner_irrefl m),
              IsFirst-negative q now r m ms later h.1,
            ),
          )
  ]

  skip-IsTested :
      (q now : ℕ) (m : Message P) (ms : List (Message P)) (rest : Option (Message P))
      → is_ready q now m ≡ false
      → IsTested q now ms rest
      → IsTested q now (m ∷ ms) rest
  skip-IsTested q now m ms none off h = (off, h)
  skip-IsTested q now m ms (some r) off h = (h.0, (rw off, h.1))

  next_ready-IsTested :
      (q now : ℕ) (ms : List (Message P)) → IsTested q now ms (next_ready q now ms)
  unfolding next_ready
  next_ready-IsTested q now [] = tt
  next_ready-IsTested q now (m ∷ ms) = elim (Bool-cases (is_ready q now m)) [
    | inl ready ↦
        rw ready
          (pick-IsTested q now m ms (next_ready q now ms) ready (next_ready-IsTested q now ms))
    | inr off ↦
        rw off (skip-IsTested q now m ms (next_ready q now ms) off (next_ready-IsTested q now ms))
  ]

  -- The WHERE of `claim_next`: of the queue, not done, not claimed, and available.
  abbrev pub IsReady : ℕ → ℕ → Message P → Type 0
  IsReady q now m =
      (m.queue_name ≡ q) × (m.done_ts ≡ none) × (m.claimed_ts ≡ none) × (m.available_ts ≤ now)

  -- A smaller priority number comes first, and of equal ones the one that was available earlier.
  abbrev pub ComesFirst : Message P → Message P → Type 0
  ComesFirst m n =
      (m.priority < n.priority) ⊎ ((m.priority ≡ n.priority) × (m.available_ts ≤ n.available_ts))

  abbrev pub IsRow : Message P → List (Message P) → Type 0
  IsRow m ms = (before : List (Message P)) × (after : List (Message P)) × (ms ≡ before ++ m ∷ after)

  -- A claim's choice: a row of the table that is ready and comes first of the ready rows, or none
  -- where no row is ready.
  abbrev pub IsChoice : ℕ → ℕ → List (Message P) → Option (Message P) → Type 0
  IsChoice q now ms none = All (λ n. ¬ (IsReady q now n)) ms
  IsChoice q now ms (some m) =
      IsRow m ms × IsReady q now m × All (λ n. (¬ (IsReady q now n)) ⊎ ComesFirst m n) ms

  is_ready-IsReady : (q now : ℕ) (m : Message P) → is_ready q now m ≡ true → IsReady q now m
  unfolding is_ready
  is_ready-IsReady q now m h = ground (arith, h)

  is_ready-not : (q now : ℕ) (m : Message P) → is_ready q now m ≡ false → ¬ (IsReady q now m)
  unfolding is_ready
  is_ready-not q now m h r = ground (arith, h, r)

  is_sooner-ComesFirst : (m n : Message P) → is_sooner n m ≡ false → ComesFirst m n
  unfolding is_sooner
  is_sooner-ComesFirst m n h = elim (Bool-cases (ltb m.priority n.priority)) [
    | inl less ↦ inl (ground arith)
    | inr more ↦ inr (ground (arith, h), ground (arith, h))
  ]

  IsReady-ComesFirst :
      (q now : ℕ) (m n : Message P)
      → (is_ready q now n && is_sooner n m) ≡ false
      → (¬ (IsReady q now n)) ⊎ ComesFirst m n
  IsReady-ComesFirst q now m n h = elim (Bool-cases (is_ready q now n)) [
    | inl ready ↦ inr (is_sooner-ComesFirst m n (ground (arith, h, ready)))
    | inr off ↦ inl (is_ready-not q now n off)
  ]

  All-implies :
      (X Y : Message P → Type 0) (ms : List (Message P))
      → ((n : Message P) → X n → Y n)
      → All X ms
      → All Y ms
  All-implies X Y [] f h = tt
  All-implies X Y (n ∷ ms) f h = (f n h.0, All-implies X Y ms f h.1)

  IsRow-cons : (m n : Message P) (ms : List (Message P)) → IsRow m ms → IsRow m (n ∷ ms)
  IsRow-cons m n ms (before, after, e) = (n ∷ before, after, ap (λ xs. n ∷ xs) e)

  next_ready-IsRow :
      (q now : ℕ) (ms : List (Message P)) (m : Message P)
      → next_ready q now ms ≡ some m
      → IsRow m ms
  unfolding next_ready
  next_ready-IsRow q now [] m h = absurd (ground (arith, h))
  next_ready-IsRow q now (n ∷ ms) m h = elim (Bool-cases (is_ready q now n)) [
    | inr off ↦ IsRow-cons m n ms (next_ready-IsRow q now ms m (rw off at h))
    | inl ready ↦ elim (Option-cases (next_ready q now ms)) [
      | inl alone ↦
          let e : n ≡ m = some_injective (rw (ready, alone) at h) in ([], ms, ap (λ x. x ∷ ms) e)
      | inr (r, found) ↦
          let e : (if is_sooner r n then r else n) ≡ m = some_injective (rw (ready, found) at h) in
          elim (Bool-cases (is_sooner r n)) [
            | inl sooner ↦
                IsRow-cons m n ms
                  (next_ready-IsRow q now ms m (found ∙ ap (λ x. some x) (rw sooner at e)))
            | inr later ↦ ([], ms, ap (λ x. x ∷ ms) (rw later at e))
          ]
    ]
  ]

  IsTested-IsChoice :
      (q now : ℕ) (ms : List (Message P)) (o : Option (Message P))
      → next_ready q now ms ≡ o
      → IsTested q now ms o
      → IsChoice q now ms o
  IsTested-IsChoice q now ms none e h =
      All-implies (λ n. is_ready q now n ≡ false) (λ n. ¬ (IsReady q now n)) ms
        (λ n off. is_ready-not q now n off) h
  IsTested-IsChoice q now ms (some m) e (ready, first) = (
    next_ready-IsRow q now ms m e,
    is_ready-IsReady q now m ready,
    All-implies (λ n. (is_ready q now n && is_sooner n m) ≡ false)
        (λ n. (¬ (IsReady q now n)) ⊎ ComesFirst m n) ms (λ n h. IsReady-ComesFirst q now m n h)
        first,
  )

  -- A claim takes a row of the table that is of the queue, not done, not claimed and available, and
  -- no other such row has a smaller priority number, or the same and an earlier time; it finds none
  -- only where no row is such.
  pub next_ready-IsChoice :
      (q now : ℕ) (ms : List (Message P)) → IsChoice q now ms (next_ready q now ms)
  next_ready-IsChoice q now ms =
      IsTested-IsChoice q now ms (next_ready q now ms) refl (next_ready-IsTested q now ms)

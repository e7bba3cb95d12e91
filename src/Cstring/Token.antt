-- ===== src/Cstring/Token.antt =====
-- What a call of `strtok` does with a string.
use test_os.Base.{
  sym, append-nil, length-append, ℕ, zero, suc, ◌+◌, ◌<◌, ◌≡◌, ◌≢◌, ◌⊎◌, refl, List, [], ◌∷◌, ◌++◌,
  some, arith, ◌==◌, ◌||◌, if◌then◌else◌, length, true, false, Bool, Bool-cases, inl, inr, ap,
  subst, All,
}
use test_os.Base.Memory.{Memory, store}
use test_os.Cstring.{
  Tokenizer, strtok_in_delim, strtok_skip, strtok_in_span, strtok_end, strtok_cut, strtok_from,
  strtok,
}
use test_os.Cstring.Holds.{Holds, Holds-frame}

abbrev pub elem : ℕ → List ℕ → Bool
elem c [] = false
elem c (d ∷ ds) = c == d || elem c ds

in_delim-elem :
    (ds : List ℕ) (span : ℕ) (m : Memory) (p c : ℕ)
    → length ds < span
    → Holds m p ds
    → strtok_in_delim span m p c ≡ some (elem c ds)
unfolding strtok_in_delim
in_delim-elem ds zero m p c f h = absurd (omega arith)
in_delim-elem [] (suc span) m p c f h = ground arith
in_delim-elem (d ∷ ds) (suc span) m p c f (e, nz, lt, h) =
    ground (arith, in_delim-elem ds span m (p + 1) c (omega arith) h)

in_span-elem :
    (ds : List ℕ) (span : ℕ) (m : Memory) (p c : ℕ)
    → length ds < span
    → Holds m p ds
    → strtok_in_span span m p c ≡ some (c == 0 || elem c ds)
unfolding strtok_in_span
in_span-elem ds zero m p c f h = absurd (omega arith)
in_span-elem [] (suc span) m p c f h = ground arith
in_span-elem (d ∷ ds) (suc span) m p c f (e, nz, lt, h) =
    ground (arith, in_span-elem ds span m (p + 1) c (omega arith) h)

-- `lead` is in `ds` throughout, and `rest` starts with a byte that is not, or is empty.
abbrev pub Skips : List ℕ → List ℕ → List ℕ → Type 0
Skips ds lead [] = All (λ c. elem c ds ≡ true) lead
Skips ds lead (c ∷ rest) = All (λ c. elem c ds ≡ true) lead × (elem c ds ≡ false)

-- `token` is outside `ds` throughout, and `rest` starts with a byte that is in it, or is empty.
abbrev pub Stops : List ℕ → List ℕ → List ℕ → Type 0
Stops ds token [] = All (λ c. elem c ds ≡ false) token
Stops ds token (c ∷ rest) = All (λ c. elem c ds ≡ false) token × (elem c ds ≡ true)

Skips-cons :
    (ds lead rest : List ℕ) (c : ℕ)
    → elem c ds ≡ true
    → Skips ds lead rest
    → Skips ds (c ∷ lead) rest
Skips-cons ds lead [] c e h = (e, h)
Skips-cons ds lead (d ∷ rest) c e h = ((e, h.0), h.1)

Stops-cons :
    (ds token rest : List ℕ) (c : ℕ)
    → elem c ds ≡ false
    → Stops ds token rest
    → Stops ds (c ∷ token) rest
Stops-cons ds token [] c e h = (e, h)
Stops-cons ds token (d ∷ rest) c e h = ((e, h.0), h.1)

zero-elem : (ds : List ℕ) (m : Memory) (p : ℕ) → Holds m p ds → elem 0 ds ≡ false
zero-elem [] m p h = refl
zero-elem (d ∷ ds) m p (e, nz, lt, h) = ground (arith, zero-elem ds m (p + 1) h)

Holds-move : {p q : ℕ} (m : Memory) (text : List ℕ) → p ≡ q → Holds m p text → Holds m q text
Holds-move m text e h = subst (λ x. Holds m x text) e h

-- A terminator written behind the first bytes of a string leaves them as a string.
Holds-cut :
    (xs ys : List ℕ) (m : Memory) (p : ℕ)
    → Holds m p (xs ++ ys)
    → Holds (store m (p + length xs) 0) p xs
Holds-cut [] ys m p h = ground arith
Holds-cut (x ∷ xs) ys m p (e, nz, lt, h) = (
  ground (arith, e),
  nz,
  lt,
  subst (λ q. Holds (store m q 0) (p + 1) xs) {x = p + 1 + length xs} (omega arith)
      (Holds-cut xs ys m (p + 1) h),
)

module _ (ds : List ℕ) (span : ℕ) (m : Memory) (delim : ℕ) (enough : length ds < span)
    (dh : Holds m delim ds) where
  skip-Skips :
      (text : List ℕ) (fuel p : ℕ)
      → length text < fuel
      → Holds m p text
      → (lead rest : List ℕ) × (text ≡ lead ++ rest)
        × Skips ds lead rest
        × (strtok_skip span fuel m p delim ≡ some (p + length lead))
        × Holds m (p + length lead) rest
  unfolding strtok_skip
  skip-Skips text zero p f h = absurd (omega arith)
  skip-Skips [] (suc fuel) p f h = (
    [],
    [],
    refl,
    tt,
    ground (arith, in_delim-elem ds span m delim (m p) enough dh, zero-elem ds m delim dh),
    Holds-move m [] (omega arith) h,
  )
  skip-Skips (c ∷ text) (suc fuel) p f (e, nz, lt, h) = elim (Bool-cases (elem c ds)) [
    | inl hit ↦
        (let (lead, rest, whole, skips, ran, held) = skip-Skips text fuel (p + 1) (omega arith) h in
          (
            c ∷ lead,
            rest,
            ap (λ t. c ∷ t) whole,
            Skips-cons ds lead rest c hit skips,
            ground (arith, in_delim-elem ds span m delim (m p) enough dh, ran),
            Holds-move m rest (omega arith) held,
          ))
    | inr miss ↦ (
      [],
      c ∷ text,
      refl,
      (tt, miss),
      ground (arith, in_delim-elem ds span m delim (m p) enough dh),
      Holds-move {p = p} {q = p + 0} m (c ∷ text) (omega arith) (e, nz, lt, h),
    )
  ]

  end-Stops :
      (text : List ℕ) (fuel p : ℕ)
      → length text < fuel
      → Holds m p text
      → (token rest : List ℕ) × (text ≡ token ++ rest)
        × Stops ds token rest
        × (strtok_end span fuel m p delim ≡ some (p + length token))
        × Holds m (p + length token) rest
  unfolding strtok_end
  end-Stops text zero p f h = absurd (omega arith)
  end-Stops [] (suc fuel) p f h = (
    [],
    [],
    refl,
    tt,
    ground (arith, in_span-elem ds span m delim (m p) enough dh),
    Holds-move m [] (omega arith) h,
  )
  end-Stops (c ∷ text) (suc fuel) p f (e, nz, lt, h) = elim (Bool-cases (elem c ds)) [
    | inr miss ↦
        (let (token, rest, whole, stops, ran, held) = end-Stops text fuel (p + 1) (omega arith) h in
          (
            c ∷ token,
            rest,
            ap (λ t. c ∷ t) whole,
            Stops-cons ds token rest c miss stops,
            ground (arith, in_span-elem ds span m delim (m p) enough dh, ran),
            Holds-move m rest (omega arith) held,
          ))
    | inl hit ↦ (
      [],
      c ∷ text,
      refl,
      (tt, hit),
      ground (arith, in_span-elem ds span m delim (m p) enough dh),
      Holds-move {p = p} {q = p + 0} m (c ∷ text) (omega arith) (e, nz, lt, h),
    )
  ]

-- `last` after a token that `tail` follows: `NULL` at the end, else the string behind the delimiter.
abbrev pub Resumes : List ℕ → Tokenizer → Type 0
Resumes [] r = r.last ≡ 0
Resumes (d ∷ tail) r = (r.last ≢ 0) × Holds r.memory r.last tail

-- A call cut `token` out of `rest`, which stands at `start` in `m`.
pub record Cuts (ds : List ℕ) (m : Memory) (start : ℕ) (rest token tail : List ℕ) (r : Tokenizer)
    : Type 0 where
  pub whole : rest ≡ token ++ tail
  pub some_byte : 0 < length token
  pub bounds : Stops ds token tail
  pub starts : r.tok ≡ start
  pub held : Holds r.memory r.tok token
  pub resumes : Resumes tail r
  pub frame : (q : ℕ) → q ≢ start + length token → r.memory q ≡ m q

cut-Cuts :
    (ds token tail : List ℕ) (c : ℕ) (m : Memory) (start : ℕ)
    → elem c ds ≡ false
    → Stops ds token tail
    → Holds m start (c ∷ (token ++ tail))
    → Holds m (start + 1 + length token) tail
    → Cuts ds m start
        (c ∷ (token ++ tail))
        (c ∷ token)
        tail
        (strtok_cut m start (start + 1 + length token))
unfolding strtok_cut
cut-Cuts ds token [] c m start miss stops held after =
    let at_end : (m (start + 1 + length token) == 0) ≡ true = ground arith in
    rw at_end (record {
      whole = refl;
      some_byte = omega arith;
      bounds = (miss, stops);
      starts = refl;
      held = subst (λ t. Holds m start (c ∷ t)) (append-nil token) held;
      resumes = refl;
      frame = λ q ne. refl;
    })
cut-Cuts ds token (d ∷ tail) c m start miss stops held after =
    let inside : (m (start + 1 + length token) == 0) ≡ false = ground arith in
    rw inside (record {
      whole = refl;
      some_byte = omega arith;
      bounds = ((miss, stops.0), stops.1);
      starts = refl;
      held =
          subst (λ q. Holds (store m q 0) start (c ∷ token)) {x = start + suc (length token)}
            (omega arith) (Holds-cut (c ∷ token) (d ∷ tail) m start held);
      resumes = (omega arith, Holds-frame m _ _ tail (after.3) (λ q a b. ground arith));
      frame = λ q ne. ground arith;
    })

module _ (ds : List ℕ) (span : ℕ) (m : Memory) (delim : ℕ) (enough : length ds < span)
    (dh : Holds m delim ds) where
  from-Cuts :
      (lead rest : List ℕ) (fuel start : ℕ)
      → length rest < fuel
      → Skips ds lead rest
      → Holds m start rest
      → ((rest ≡ [])
          × (strtok_from span fuel m start delim ≡ some (record { tok = 0; last = 0; memory = m })))
        ⊎ ((token tail : List ℕ) × (r : Tokenizer) × (strtok_from span fuel m start delim ≡ some r)
            × Cuts ds m start rest token tail r)
  unfolding strtok_from
  from-Cuts lead [] fuel start f skips h = inl (refl, ground arith)
  from-Cuts lead (c ∷ rest) fuel start f skips (e, nz, lt, h) =
      let (token, tail, whole, stops, ran, after) =
        end-Stops ds span m delim enough dh rest fuel (start + 1) (omega arith) h in
      inr (
        c ∷ token,
        tail,
        strtok_cut m start (start + 1 + length token),
        ground (arith, ran, e),
        subst
            (λ t.
              Cuts ds m start (c ∷ t) (c ∷ token) tail
                (strtok_cut m start (start + 1 + length token)))
            (sym whole)
            (cut-Cuts ds token tail c m start (skips.1) stops
              (e, nz, lt, subst (Holds m (start + 1)) whole h) after),
      )

-- `strtok` on the string `text`, given in the call or left by the last one, skips the delimiters at
-- its start. If nothing is left it returns `NULL` and clears `last`. Otherwise it returns the bytes up
-- to the next delimiter as a string, terminated in place, and leaves in `last` the string behind that
-- delimiter, or `NULL` at the end of `text`. No other byte of memory changes. One round for each byte
-- and one for the terminator are enough.
pub strtok-Cuts :
    (ds text : List ℕ) (span fuel : ℕ) (m : Memory) (last str delim : ℕ)
    → length ds < span
    → length text < fuel
    → Holds m delim ds
    → (if str == 0 then last else str) ≢ 0
    → Holds m (if str == 0 then last else str) text
    → (lead rest : List ℕ) × (text ≡ lead ++ rest)
      × Skips ds lead rest
      × (((rest ≡ [])
            × (strtok span fuel m last str delim ≡ some (record { tok = 0; last = 0; memory = m })))
          ⊎ ((token tail : List ℕ) × (r : Tokenizer) × (strtok span fuel m last str delim ≡ some r)
              × Cuts ds m ((if str == 0 then last else str) + length lead) rest token tail r))
unfolding strtok
strtok-Cuts ds text span fuel m last str delim hs hf dh nn th =
    let start : ℕ = if str == 0 then last else str in
    let (lead, rest, whole, skips, ran, held) =
      skip-Skips ds span m delim hs dh text fuel start hf th in
    let shorter : length rest < fuel = omega (arith, ap length whole, length-append lead rest) in
    (
      lead,
      rest,
      whole,
      skips,
      elim (from-Cuts ds span m delim hs dh lead rest fuel (start + length lead) shorter skips
          held) [
            | inl (e, r) ↦ inl (e, ground (arith, ran, r))
            | inr (token, tail, r, e, cuts) ↦ inr (token, tail, r, ground (arith, ran, e), cuts)
          ],
    )

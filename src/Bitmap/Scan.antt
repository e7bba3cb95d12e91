-- ===== src/Bitmap/Scan.antt =====
-- The search of `bitmap_malloc` for free pages in a row (kernel/bitmap.c, the loops at `found_prev`).
use test_os.Base.{
  subst, ℕ, zero, suc, ◌+◌, ◌-◌, ◌*◌, ◌≤◌, ◌<◌, ◌≡◌, ◌≢◌, ◌⊎◌, inl, inr, arith, ◌==◌, Bool-cases,
  true, false,
}
use test_os.Base.Memory.{Memory}
use test_os.Bitmap.{Search, hit, miss, is_free, scan_byte, scan_map}
use test_os.Bitmap.Pages.{used, used-lt, RunFree, is_free-used}
use native.Mathlib.Decide.{dec_lt, dec_le}

module _ (m : Memory) (size lo : ℕ) where
  -- The search, started at page `lo`, stands at page `pos` with `found` free pages behind it: the run
  -- is not complete, it cannot be longer, and no free run of `size` pages ends before `pos`.
  pub record Tracked (pos found : ℕ) : Type 0 where
    pub short : found < size
    pub fits : lo + found ≤ pos
    pub free : RunFree m (pos - found) found
    pub longest : (lo + found ≡ pos) ⊎ ((lo + found < pos) × (used m (pos - found - 1) ≡ 1))
    pub none_before :
        (a : ℕ) → lo ≤ a → a + size ≤ pos → (k : ℕ) × (a ≤ k) × (k < a + size) × (used m k ≡ 1)

  -- What the search has found when it stops: the first complete run ends at the hit.
  pub record Found (i j : ℕ) : Type 0 where
    pub bit : j < 8
    pub fits : lo + size ≤ i * 8 + j + 1
    pub free : RunFree m (i * 8 + j + 1 - size) size
    pub first :
        (a : ℕ)
        → lo ≤ a
        → a + size ≤ i * 8 + j
        → (k : ℕ) × (a ≤ k) × (k < a + size) × (used m k ≡ 1)

  -- What the end of a search at page `pos`, with `j` at `last`, says.
  abbrev pub Outcome : ℕ → ℕ → Search → Type 0
  Outcome last pos (hit i j) = Found i j × (i * 8 + j < pos)
  Outcome last pos (miss j found) = (j ≡ last) × Tracked pos found

  track-free :
      (pos found : ℕ)
      → Tracked pos found
      → used m pos ≡ 0
      → found + 1 ≢ size
      → Tracked (pos + 1) (found + 1)
  track-free pos found t u ne = record {
    short = omega arith;
    fits = omega arith;
    free = λ k a b. elim (dec_lt k pos) [
      | yes lt ↦ t.free k (omega arith) (omega arith)
      | no ge ↦ subst (λ q. used m q ≡ 0) {x = pos} {y = k} (omega arith) u
    ];
    longest = ground arith;
    none_before = λ a h e. elim (dec_le (a + size) pos) [
      | yes le ↦ t.none_before a h le
      | no gt ↦ elim t.longest [
        | inl all ↦ absurd (omega arith)
        | inr (lt, w) ↦ (pos - found - 1, omega arith, omega arith, w)
      ]
    ];
  }

  track-used : (pos found : ℕ) → Tracked pos found → used m pos ≡ 1 → Tracked (pos + 1) 0
  track-used pos found t u = record {
    short = omega arith;
    fits = omega arith;
    free = λ k a b. absurd (omega arith);
    longest =
        inr
          (omega arith, subst (λ q. used m q ≡ 1) {x = pos} {y = pos + 1 - 0 - 1} (omega arith) u);
    none_before = λ a h e. elim (dec_le (a + size) pos) [
      | yes le ↦ t.none_before a h le
      | no gt ↦ (pos, omega arith, omega (arith, t.short), u)
    ];
  }

  complete :
      (i j found : ℕ)
      → j < 8
      → Tracked (i * 8 + j) found
      → used m (i * 8 + j) ≡ 0
      → found + 1 ≡ size
      → Found i j
  complete i j found h t u e = record {
    bit = h;
    fits = omega (arith, t.fits);
    first = t.none_before;
    free = λ k a b. elim (dec_lt k (i * 8 + j)) [
      | yes lt ↦ t.free k (omega (arith, t.fits)) (omega (arith, t.fits))
      | no ge ↦ subst (λ q. used m q ≡ 0) {x = i * 8 + j} {y = k} (omega (arith, t.fits)) u
    ];
  }

  page_free : (i j : ℕ) → j < 8 → is_free m i j ≡ true → used m (i * 8 + j) ≡ 0
  page_free i j h e = ground (arith, is_free-used m i j h)

  page_used : (i j : ℕ) → j < 8 → is_free m i j ≡ false → used m (i * 8 + j) ≡ 1
  page_used i j h e = ground (arith, is_free-used m i j h, used-lt m (i * 8 + j))

  never_zero : {pos found : ℕ} → Tracked pos found → (0 == size) ≡ false
  never_zero t = ground (arith, t.short)

  scan_byte-Outcome :
      (rounds i j found : ℕ)
      → j + rounds ≡ 8
      → Tracked (i * 8 + j) found
      → Outcome 8 (i * 8 + 8) (scan_byte rounds m size i j found)
  unfolding scan_byte
  scan_byte-Outcome zero i j found e t = (omega arith, subst (λ q. Tracked q found) (omega arith) t)
  scan_byte-Outcome (suc rounds) i j found e t = elim (Bool-cases (is_free m i j)) [
    | inl free ↦ rw free (elim (Bool-cases (found + 1 == size)) [
      | inl full ↦ rw full (
        complete i j found (omega arith) t (page_free i j (omega arith) free) (ground arith),
        omega arith,
      )
      | inr more ↦ rw more (
          scan_byte-Outcome rounds i (j + 1) (found + 1) (omega arith) (
            subst (λ q. Tracked q (found + 1)) (omega arith)
              (track-free (i * 8 + j) found t (page_free i j (omega arith) free) (ground arith))))
    ])
    | inr taken ↦ rw taken (
        rw (never_zero t) (
          scan_byte-Outcome rounds i (j + 1) 0 (omega arith) (
            subst (λ q. Tracked q 0) (omega arith)
              (track-used (i * 8 + j) found t (page_used i j (omega arith) taken)))))
  ]

  scan_map-Outcome :
      (rounds i j found : ℕ)
      → j < 8
      → i * 8 + j ≤ (i + rounds) * 8
      → Tracked (i * 8 + j) found
      → Outcome 0 ((i + rounds) * 8) (scan_map rounds m size i j found)
  unfolding scan_map
  scan_map-Outcome zero i j found h e t =
      (omega arith, subst (λ q. Tracked q found) (omega arith) t)
  scan_map-Outcome (suc rounds) i j found h e t =
      (elim (scan_byte (8 - j) m size i j found)
          as (λ r.
            Outcome 8 (i * 8 + 8) r
            → Outcome 0 ((i + suc rounds) * 8) (elim r [
              | hit i' j' ↦ Search.hit i' j'
              | miss j' found' ↦ scan_map rounds m size (i + 1) 0 found'
            ])) [
              | hit i' j' ↦ λ o. (o.0, omega (arith, o.1))
              | miss j' found' ↦ λ o.
                  subst (λ q. Outcome 0 q (scan_map rounds m size (i + 1) 0 found')) (omega arith)
                    (scan_map-Outcome rounds (i + 1) 0 found' (omega arith) (omega arith)
                      (subst (λ q. Tracked q found') (omega arith) o.1))
            ])
        (scan_byte-Outcome (8 - j) i j found (omega arith) t)

  -- A search starts with nothing found.
  pub Tracked-start : 0 < size → Tracked lo 0
  Tracked-start h = record {
    short = h;
    fits = omega arith;
    free = λ k a b. absurd (omega arith);
    longest = inl (omega arith);
    none_before = λ a p q. absurd (omega arith);
  }

-- The search from page `i * 8 + j` up to the end of the first `i + rounds` bytes: it stops at the end
-- of the first run of `size` free pages, or there is no such run and it counts the free pages at the
-- end.
pub scan_map-first :
    (m : Memory) (size rounds i j : ℕ)
    → 0 < size
    → j < 8
    → i * 8 + j ≤ (i + rounds) * 8
    → Outcome m size (i * 8 + j) 0 ((i + rounds) * 8) (scan_map rounds m size i j 0)
scan_map-first m size rounds i j p h e =
    scan_map-Outcome m size (i * 8 + j) rounds i j 0 h e (Tracked-start m size (i * 8 + j) p)

-- ===== src/Net/Adler/Reference.antt =====
-- The checksum with its delayed reductions is Adler-32: no uint32_t sum overflows within a run, and
-- reducing once for a run is reducing for every byte.
use rubyserver.Base.{
  ℕ, zero, suc, ◌+◌, ◌-◌, ◌*◌, ◌%◌, ◌^◌, ◌≤◌, ◌<◌, ◌≡◌, refl, ap, ◌∙◌, sym, ◌++◌, take-append-drop,
  List, [], ◌∷◌, ltb, arith, length, take, drop, length-drop, ◌==◌, false,
}
use rubyserver.Base.Memory.{IsByteList}
use mathlib.Core.Path.{ap₂}
use rubyserver.Net.Adler.{run_of, adler, max_length, Sums, add_run, sum_runs, adler_checksum}

-- Adler-32: both sums reduced at every byte.
pub adler_a : ℕ → List ℕ → ℕ
adler_a a [] = a
adler_a a (x ∷ xs) = adler_a ((a + x) % adler) xs

pub adler_b : ℕ → ℕ → List ℕ → ℕ
adler_b a b [] = b
adler_b a b (x ∷ xs) = adler_b ((a + x) % adler) ((b + (a + x) % adler) % adler) xs

-- The most that `b` grows by in `t` bytes that begin at the sum `a`.
growth : ℕ → ℕ → ℕ
growth zero a = 0
growth (suc t) a = a + 255 + growth t (a + 255)

growth_mono : (t a a' : ℕ) → a ≤ a' → growth t a ≤ growth t a'
unfolding growth
growth_mono zero a a' h = omega arith
growth_mono (suc t) a a' h = omega (arith, growth_mono t (a + 255) (a' + 255))

growth-le : (t u a : ℕ) → t ≤ u → growth t a ≤ growth u a
unfolding growth
growth-le zero u a h = omega arith
growth-le (suc t) zero a h = absurd (omega arith)
growth-le (suc t) (suc u) a h = omega (arith, growth-le t u (a + 255))

a-le-growth : (t a : ℕ) → a ≤ a + growth t a
a-le-growth t a = omega arith

longest_growth : 65520 + growth 5552 65520 < 2 ^ 32
unfolding growth
longest_growth = omega arith

add_run-fits :
    (t x : ℕ) (xs : List ℕ) (a b : ℕ)
    → a + x < 2 ^ 32
    → b + (a + x) < 2 ^ 32
    → add_run (suc t) (x ∷ xs) a b ≡ add_run t xs (a + x) (b + (a + x))
unfolding add_run
add_run-fits t x xs a b h k = ap₂ (add_run t xs) (omega arith) (omega arith)

-- A run that cannot overflow: its sums, reduced, are those of Adler-32, and it stops behind its bytes.
add_run-eq :
    (t : ℕ) (xs : List ℕ) (a b : ℕ)
    → t ≤ length xs
    → IsByteList xs
    → a + 255 * t < 2 ^ 32
    → b + growth t a < 2 ^ 32
    → let s = add_run t xs a b in
      (s.a % adler ≡ adler_a (a % adler) (take t xs))
      × (s.b % adler ≡ adler_b (a % adler) (b % adler) (take t xs))
      × (s.ahead ≡ drop t xs)
unfolding add_run adler_a adler_b growth
add_run-eq zero xs a b h v ka kb = (refl, refl, refl)
add_run-eq (suc t) [] a b h v ka kb = absurd (omega arith)
add_run-eq (suc t) (x ∷ xs) a b h v ka kb =
    let step = add_run-fits t x xs a b (omega (arith, v.0)) (omega (arith, v.0)) in
    let a_reduced : (a % adler + x) % adler ≡ (a + x) % adler = omega arith in
    let b_reduced : (b % adler + (a % adler + x) % adler) % adler ≡ (b + (a + x)) % adler =
      omega arith in
    let rest =
      add_run-eq t xs (a + x) (b + (a + x)) (omega arith) v.1 (omega (arith, v.0))
        (omega (arith, v.0, growth_mono t (a + x) (a + 255))) in
    (
      ap (λ (s : Sums). s.a % adler) step
          ∙ rest.0
          ∙ ap (λ (c : ℕ). adler_a c (take t xs)) (sym a_reduced),
      ap (λ (s : Sums). s.b % adler) step
          ∙ rest.1
          ∙ ap₂ (λ (c d : ℕ). adler_b c d (take t xs)) (sym a_reduced) (sym b_reduced),
      ap (λ (s : Sums). s.ahead) step ∙ rest.2,
    )

adler_a-append : (a : ℕ) (xs ys : List ℕ) → adler_a a (xs ++ ys) ≡ adler_a (adler_a a xs) ys
unfolding adler_a
adler_a-append a [] ys = refl
adler_a-append a (x ∷ xs) ys = adler_a-append ((a + x) % adler) xs ys

adler_b-append :
    (a b : ℕ) (xs ys : List ℕ) → adler_b a b (xs ++ ys) ≡ adler_b (adler_a a xs) (adler_b a b xs) ys
unfolding adler_a adler_b
adler_b-append a b [] ys = refl
adler_b-append a b (x ∷ xs) ys =
    adler_b-append ((a + x) % adler) ((b + (a + x) % adler) % adler) xs ys

adler_a-lt : (a : ℕ) (xs : List ℕ) → a < adler → adler_a a xs < adler
unfolding adler_a
adler_a-lt a [] h = h
adler_a-lt a (x ∷ xs) h = adler_a-lt ((a + x) % adler) xs (omega arith)

adler_b-lt : (a b : ℕ) (xs : List ℕ) → b < adler → adler_b a b xs < adler
unfolding adler_b
adler_b-lt a b [] h = h
adler_b-lt a b (x ∷ xs) h =
    adler_b-lt ((a + x) % adler) ((b + (a + x) % adler) % adler) xs (omega arith)

IsByteList-drop : (t : ℕ) (xs : List ℕ) → IsByteList xs → IsByteList (drop t xs)
IsByteList-drop zero xs v = v
IsByteList-drop (suc t) [] v = v
IsByteList-drop (suc t) (x ∷ xs) v = IsByteList-drop t xs v.1

run_of_bounds : (n : ℕ) → (run_of n ≤ n) × (run_of n ≤ 5552) × (0 < n → 0 < run_of n)
unfolding run_of
run_of_bounds n = ground arith

sum_runs-step :
    (fuel n : ℕ) (xs : List ℕ) (a b : ℕ)
    → 0 < n
    → let s = add_run (run_of n) xs a b in
      sum_runs (suc fuel) n xs a b
      ≡ sum_runs fuel (n - run_of n) s.ahead (s.a % adler) (s.b % adler)
unfolding sum_runs
sum_runs-step fuel zero xs a b h = absurd (omega arith)
sum_runs-step fuel (suc n) xs a b h = let e : (suc n == 0) ≡ false = ground arith in rw e

-- One round of the outer loop reads a run and reduces.
module _ (fuel : ℕ) (all : List ℕ) (a b : ℕ) (some_bytes : 0 < length all) (v : IsByteList all)
    (ka : a < adler) (kb : b < adler) where
  abbrev t : ℕ
  t = run_of (length all)

  run :
      let s = add_run t all a b in
      (s.a % adler ≡ adler_a (a % adler) (take t all))
      × (s.b % adler ≡ adler_b (a % adler) (b % adler) (take t all))
      × (s.ahead ≡ drop t all)
  run =
      let bounds = run_of_bounds (length all) in
      add_run-eq t all a b bounds.0 v (omega arith)
        (omega (arith, longest_growth, growth-le t 5552 a, growth_mono 5552 a 65520))

  sum_runs-run :
      sum_runs (suc fuel) (length all) all a b
      ≡ sum_runs fuel
          (length (drop t all))
          (drop t all)
          (adler_a a (take t all))
          (adler_b a b (take t all))
  sum_runs-run =
      let a_start : a % adler ≡ a = omega arith in
      let b_start : b % adler ≡ b = omega arith in
      rw (
        sum_runs-step fuel (length all) all a b some_bytes,
        run.0,
        run.1,
        run.2,
        a_start,
        b_start,
        length-drop t all,
      )

-- With as much fuel as there are bytes, the outer loop reads all bytes and gives the reduced sums.
sum_runs-eq :
    (fuel : ℕ) (xs : List ℕ) (a b : ℕ)
    → length xs ≤ fuel
    → IsByteList xs
    → a < adler
    → b < adler
    → let s = sum_runs fuel (length xs) xs a b in (s.a ≡ adler_a a xs) × (s.b ≡ adler_b a b xs)
unfolding sum_runs adler_a adler_b
sum_runs-eq zero [] a b h v ka kb = (refl, refl)
sum_runs-eq (suc fuel) [] a b h v ka kb = (refl, refl)
sum_runs-eq zero (x ∷ xs) a b h v ka kb = absurd (omega arith)
sum_runs-eq (suc fuel) (x ∷ xs) a b h v ka kb =
    let all : List ℕ = x ∷ xs in
    let t : ℕ = run_of (length all) in
    let step = sum_runs-run fuel all a b (omega arith) v ka kb in
    let rest =
      sum_runs-eq fuel (drop t all) (adler_a a (take t all)) (adler_b a b (take t all))
        (omega (arith, length-drop t all, (run_of_bounds (length all)).2 (omega arith)))
        (IsByteList-drop t all v) (adler_a-lt a (take t all) ka) (adler_b-lt a b (take t all) kb) in
    let whole = take-append-drop t all in
    (
      ap (λ (s : Sums). s.a) step
          ∙ rest.0
          ∙ sym (adler_a-append a (take t all) (drop t all))
          ∙ ap (adler_a a) whole,
      ap (λ (s : Sums). s.b) step
          ∙ rest.1
          ∙ sym (adler_b-append a b (take t all) (drop t all))
          ∙ ap (adler_b a b) whole,
    )

-- Of at most 24590 bytes the function computes the Adler-32 checksum, whose two sums are reduced at
-- every byte, though it reduces them only at the end of a run; no uint32_t sum overflows on the way.
pub adler_checksum-eq :
    (bytes : List ℕ)
    → IsByteList bytes
    → length bytes ≤ max_length
    → adler_checksum bytes ≡ adler_b 1 0 bytes * 65536 + adler_a 1 bytes
unfolding adler_checksum
adler_checksum-eq bytes v h =
    let short : ltb max_length (length bytes) ≡ false = ground arith in
    let sums = sum_runs-eq (length bytes) bytes 1 0 (omega arith) v (omega arith) (omega arith) in
    rw short (omega (arith, sums, adler_b-lt 1 0 bytes))

pub adler_checksum-lt :
    (bytes : List ℕ) → IsByteList bytes → length bytes ≤ max_length → adler_checksum bytes < 2 ^ 32
adler_checksum-lt bytes v h = omega (
  arith,
  adler_checksum-eq bytes v h,
  adler_b-lt 1 0 bytes (omega arith),
  adler_a-lt 1 bytes (omega arith),
)

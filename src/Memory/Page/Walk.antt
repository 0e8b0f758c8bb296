-- ===== src/Memory/Page/Walk.antt =====
-- What a loop over a range of pages visits.
use queen.Base.{ℕ, zero, suc, ◌+◌, ◌-◌, ◌/◌, ◌%◌, ◌^◌, ◌<◌, ◌≡◌, sym, ◌∙◌, List, [], ◌∷◌, arith}
use queen.Memory.Page.{Page, range_of, walk, pages}

abbrev pub page : ℕ → Page
page n = record { number = n }

-- The page numbers `first`, `first + 1`, ... , `count` of them.
abbrev pub numbers : ℕ → ℕ → List Page
numbers first zero = []
numbers first (suc count) = page first ∷ numbers (first + 1) count

walk-numbers :
    (count fuel first last : ℕ)
    → last + 1 ≡ first + count
    → last + 1 < 2 ^ 64
    → count < fuel
    → walk fuel (record { start = page first; end = page last }) ≡ numbers first count
unfolding walk
walk-numbers count zero first last e b h = absurd (omega arith)
walk-numbers zero (suc fuel) first last e b h = ground arith
walk-numbers (suc count) (suc fuel) first last e b h =
    let step : (first + 1) % 2 ^ 64 ≡ first + 1 = omega arith in
    let rest = walk-numbers count fuel (first + 1) last (omega arith) b (omega arith) in
    ground (arith, step, rest)

-- A loop over `Page::range_of(begin, end)`, for `begin < end < 2 ^ 64`, ends, and visits the pages
-- that meet `[begin, end)`, each once and in order: those numbered from `begin / 4096` to
-- `(end - 1) / 4096`. More fuel than `pages` takes changes nothing.
pub pages-range_of :
    (begin end fuel : ℕ)
    → begin < end
    → end < 2 ^ 64
    → (end - 1) / 4096 + 1 < begin / 4096 + fuel
    → (walk fuel (range_of begin end)
        ≡ numbers (begin / 4096) ((end - 1) / 4096 + 1 - begin / 4096))
      × (pages (range_of begin end) ≡ walk fuel (range_of begin end))
unfolding pages
pages-range_of begin end fuel h b enough =
    let e : (end + 2 ^ 64 - 1) % 2 ^ 64 ≡ end - 1 = omega arith in
    let run = λ (n : ℕ) (p : (end - 1) / 4096 + 1 < begin / 4096 + n).
      walk-numbers ((end - 1) / 4096 + 1 - begin / 4096) n (begin / 4096) ((end - 1) / 4096)
        (omega arith) (omega arith) (omega arith) in
    let fewer : (end - 1) / 4096 + 1 < begin / 4096 + ((end - 1) / 4096 + 2 - begin / 4096) =
      omega arith in
    rw e (run fuel enough, run _ fewer ∙ sym (run fuel enough))

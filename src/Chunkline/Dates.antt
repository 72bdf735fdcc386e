-- ===== src/Chunkline/Dates.antt =====
-- The chunk in which an instant lies, and the instants between which a chunk's body lies.
use concrnt_playground.Chunkline.{chunk_of, prev_chunk_date, chunk_date}
use concrnt_playground.Prelude.{
  ℕ, zero, suc, ◌≤◌, ◌<◌, ◌+◌, ◌*◌, ◌^◌, ◌-◌, ◌%◌, true, false, ◌≡◌, refl, sym, subst, ap, ◌∙◌,
  arith, leb,
}
use concrnt_playground.Prelude.Int.{pos, i64}
use concrnt_playground.Store.Joined.{is_until, until_of}

-- An int64 holds what is below 2 ^ 63.
i64_small : (n : ℕ) → n < 2 ^ 63 → i64 (n % 2 ^ 64) ≡ pos n
i64_small n h = ground arith

cutoff_word :
    (chunk : ℕ)
    → (chunk + 1) * 600 < 2 ^ 63
    → ((chunk % 2 ^ 64 + 1) % 2 ^ 64) * 600 ≡ (chunk + 1) * 600
cutoff_word chunk h = omega arith

prev_word :
    (chunk : ℕ)
    → (chunk + 2) * 600 < 2 ^ 63
    → (((suc chunk) % 2 ^ 64 + (2 ^ 64 - 1)) % 2 ^ 64) * 600 ≡ chunk * 600
prev_word chunk h = omega arith

cutoff_unix :
    (chunk : ℕ)
    → (chunk + 1) * 600 < 2 ^ 63
    → (chunk_date (pos chunk)).unix ≡ pos ((chunk + 1) * 600)
cutoff_unix chunk h =
    ap (λ w. i64 (w % 2 ^ 64)) (cutoff_word chunk h) ∙ i64_small ((chunk + 1) * 600) h

prev_unix :
    (chunk : ℕ)
    → (chunk + 2) * 600 < 2 ^ 63
    → (prev_chunk_date (pos (suc chunk))).unix ≡ pos (chunk * 600)
prev_unix chunk h =
    ap (λ w. i64 (w % 2 ^ 64)) (prev_word chunk h) ∙ i64_small (chunk * 600) (omega arith)

pub cutoff_bounds :
    (chunk c : ℕ)
    → (chunk + 1) * 600 < 2 ^ 63
    → is_until (chunk_date (pos chunk)) c ≡ true
    → c ≤ (chunk + 1) * 600 * 1000000
cutoff_bounds chunk c b h =
    let e : leb c ((chunk + 1) * 600 * 1000000 + 0) ≡ true =
      subst (λ s. until_of s 0 c ≡ true) (cutoff_unix chunk b) h in
    ground arith

pub own_cutoff :
    (chunk c : ℕ)
    → (chunk + 1) * 600 < 2 ^ 63
    → chunk_of c ≡ chunk
    → is_until (chunk_date (pos chunk)) c ≡ true
own_cutoff chunk c b h =
    subst (λ s. until_of s 0 c ≡ true) (sym (cutoff_unix chunk b)) (ground arith)

pub own_window :
    (chunk c : ℕ)
    → (chunk + 1) * 600 < 2 ^ 63
    → chunk_of c ≡ chunk
    → is_until (prev_chunk_date (pos chunk)) c ≡ false
own_window zero c b h = refl
own_window (suc chunk) c b h =
    subst (λ s. until_of s 0 c ≡ false) (sym (prev_unix chunk (omega arith))) (ground arith)

pub until_cutoff :
    (chunk c : ℕ)
    → (chunk + 1) * 600 < 2 ^ 63
    → c ≤ (chunk + 1) * 600 * 1000000
    → is_until (chunk_date (pos chunk)) c ≡ true
until_cutoff chunk c b h =
    subst (λ s. until_of s 0 c ≡ true) (sym (cutoff_unix chunk b)) (ground arith)

pub after_prev :
    (chunk c : ℕ)
    → (chunk + 1) * 600 < 2 ^ 63
    → chunk * 600 * 1000000 < c + 600 * 1000000
    → is_until (prev_chunk_date (pos chunk)) c ≡ false
after_prev zero c b h = refl
after_prev (suc chunk) c b h =
    subst (λ s. until_of s 0 c ≡ false) (sym (prev_unix chunk (omega arith))) (ground arith)

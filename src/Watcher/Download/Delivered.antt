-- ===== src/Watcher/Download/Delivered.antt =====
-- Which bytes of the remote file a download delivers.
use wdxref.Base.{
  ℕ, zero, suc, ◌+◌, ◌≡◌, refl, sym, ap, ◌∙◌, List, [], ◌∷◌, ◌++◌, Bytes, beq, ltb, length, take,
  drop, length-append, arith, Bool-cases, inl, inr,
}
use wdxref.Watcher.Download.{
  Reconnect, Arrival, arrived, ended, broken, ResumableBody, new_resumable_body, reconnect, ReadEnd,
  more, end_of_file, failed, chunk, advance, resumed, read, read_on, read_all,
}
use wdxref.Watcher.Download.Resumed.{resume_cases}

take-length : (n : ℕ) (xs : Bytes) → take n xs ≡ take (length (take n xs)) xs
take-length zero xs = refl
take-length (suc n) [] = refl
take-length (suc n) (x ∷ xs) = ap (◌∷◌ x) (take-length n xs)

take_nothing : (n : ℕ) → take {A = ℕ} n [] ≡ []
take_nothing zero = refl
take_nothing (suc n) = refl

drop_nothing : (n : ℕ) → drop {A = ℕ} n [] ≡ []
drop_nothing zero = refl
drop_nothing (suc n) = refl

suc_sum : (a b : ℕ) → suc a + b ≡ suc (a + b)
suc_sum a b = omega arith

take_sum : (a b : ℕ) (xs : Bytes) → take (a + b) xs ≡ take a xs ++ take b (drop a xs)
take_sum zero b xs = ap (λ n. take n xs) (omega arith)
take_sum (suc a) b [] = take_nothing (suc a + b) ∙ sym (take_nothing b)
take_sum (suc a) b (x ∷ xs) = ap (λ n. take n (x ∷ xs)) (suc_sum a b) ∙ ap (◌∷◌ x) (take_sum a b xs)

drop_sum : (a b : ℕ) (xs : Bytes) → drop (a + b) xs ≡ drop b (drop a xs)
drop_sum zero b xs = ap (λ n. drop n xs) (omega arith)
drop_sum (suc a) b [] = drop_nothing (suc a + b) ∙ sym (drop_nothing b)
drop_sum (suc a) b (x ∷ xs) = ap (λ n. drop n (x ∷ xs)) (suc_sum a b) ∙ drop_sum a b xs

resumed-offset :
    (reply : Reconnect) (rb : ResumableBody)
    → ((resumed (reconnect reply rb)).1.offset ≡ rb.offset)
      × ((resumed (reconnect reply rb)).0 ≡ more → (resumed (reconnect reply rb)).1.at ≡ rb.offset)
unfolding reconnect
resumed-offset reply rb =
    let counted = record rb { retries = rb.retries + 1 } in
    elim (Bool-cases (ltb 10 (rb.retries + 1))) [
      | inl many ↦ rw many (refl, λ h. absurd cc)
      | inr few ↦ elim (resume_cases reply counted) [
        | inl (e, fails) ↦ rw (few, fails) (refl, λ h. absurd cc)
        | inr resumes ↦ rw (few, resumes) (refl, λ h. refl)
      ]
    ]

module _ (file : Bytes) where
  -- The bytes of the file from an offset on, and the offset behind them.
  abbrev pub IsDelivered : ℕ → Bytes × ReadEnd × ResumableBody → Type 0
  IsDelivered offset (p, end, next) =
      (p ≡ take (length p) (drop offset file)) × (next.offset ≡ offset + length p)

  chunk_lem :
      (n : ℕ) (rb : ResumableBody)
      → rb.at ≡ rb.offset
      → chunk file n rb ≡ take (length (chunk file n rb)) (drop rb.offset file)
  chunk_lem n rb h =
      take-length n (drop rb.at file) ∙ ap (λ o. take (length (chunk file n rb)) (drop o file)) h

  read-IsDelivered :
      (a : Arrival) (rb : ResumableBody)
      → rb.at ≡ rb.offset
      → IsDelivered rb.offset (read file a rb)
        × ((read file a rb).1 ≡ more → (read file a rb).2.at ≡ (read file a rb).2.offset)
  unfolding read
  read-IsDelivered (arrived n) rb h =
      ((chunk_lem n rb h, refl), λ k. ap (λ o. o + length (chunk file n rb)) h)
  read-IsDelivered (ended n) rb h = ((chunk_lem n rb h, refl), λ k. absurd cc)
  read-IsDelivered (broken n reply) rb h = elim (Bool-cases (beq rb.etag [])) [
    | inl none_given ↦ rw none_given ((chunk_lem n rb h, refl), λ k. absurd cc)
    | inr given ↦
        let (offset, at) = resumed-offset reply (advance (chunk file n rb) rb) in
        rw given ((chunk_lem n rb h, offset), λ k. at k ∙ sym offset)
  ]

  -- The bytes of a read that goes on, and those of the rest.
  read_on-IsDelivered :
      (rest : ResumableBody → Bytes × ReadEnd × ResumableBody) (offset : ℕ)
      (r : Bytes × ReadEnd × ResumableBody)
      → IsDelivered offset r
      → (r.1 ≡ more → IsDelivered r.2.offset (rest r.2))
      → IsDelivered offset (read_on rest r)
  read_on-IsDelivered rest offset (p, end_of_file, next) h k = h
  read_on-IsDelivered rest offset (p, failed e, next) h k = h
  read_on-IsDelivered rest offset (p, more, next) (first, at) k =
      let ps = (rest next).0 in
      let (later, behind) = k refl in
      let there : drop next.offset file ≡ drop (length p) (drop offset file) =
        ap (λ o. drop o file) at ∙ drop_sum offset (length p) file in
      let whole = take_sum (length p) (length ps) (drop offset file) in
      let tail : ps ≡ take (length ps) (drop (length p) (drop offset file)) =
        later ∙ ap (take (length ps)) there in
      (
        ap (λ x. x ++ ps) first
            ∙ ap (λ x. take (length p) (drop offset file) ++ x) tail
            ∙ sym whole
            ∙ ap (λ n. take n (drop offset file)) (sym (length-append p ps)),
        omega (arith, behind, at, length-append p ps),
      )

  read_all-IsDelivered :
      (arrivals : List Arrival) (rb : ResumableBody)
      → rb.at ≡ rb.offset
      → IsDelivered rb.offset (read_all file arrivals rb)
  unfolding read_all
  read_all-IsDelivered [] rb h = (refl, omega arith)
  read_all-IsDelivered (a ∷ arrivals) rb h =
      let (first, goes_on) = read-IsDelivered a rb h in
      read_on-IsDelivered (read_all file arrivals) rb.offset (read file a rb) first
        (λ k. read_all-IsDelivered arrivals (read file a rb).2 (goes_on k))

  -- However often the connection breaks, and however the download ends, the bytes that it has delivered
  -- are the first ones of the file, in order, as many as its offset says: none is lost or repeated at a
  -- resume.
  pub download_prefix :
      (arrivals : List Arrival) (etag : Bytes)
      → let (bytes, end, rb) = read_all file arrivals (new_resumable_body etag) in
        (bytes ≡ take rb.offset file) × (rb.offset ≡ length bytes)
  download_prefix arrivals etag =
      let (delivered, at) = read_all-IsDelivered arrivals (new_resumable_body etag) refl in
      let same : (read_all file arrivals (new_resumable_body etag)).2.offset
          ≡ length (read_all file arrivals (new_resumable_body etag)).0 =
        at ∙ omega arith in
      (delivered ∙ ap (λ n. take n file) (sym same), same)

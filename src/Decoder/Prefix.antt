-- ===== src/Decoder/Prefix.antt =====
-- A read within a piece of the input is a read of the input.
use iot_server.Base.{
  ℕ, zero, suc, ◌+◌, ◌*◌, ◌%◌, ◌^◌, ◌≡◌, refl, ap, sym, ◌∙◌, List, [], ◌∷◌, ◌++◌, arith, take, drop,
  take-append-drop, drop-drop, ltb, subst, inl, inr, List-cases, Bool-cases,
}
use iot_server.Base.Text.{Bytes}
use iot_server.Decoder.Outcome.{ok}
use iot_server.Decoder.Reader.{Reader, rest, advance, uvarint_loop, read_uvarint}
use iot_server.Decoder.Reads.{rest-advance, read_byte_lem}

-- `q` reads what `r` reads, and then `more`.
abbrev pub Extends : Reader → Reader → Bytes → Type 0
Extends r q more = rest q ≡ rest r ++ more

-- `q` ends as far behind where it began as `r`, and still extends it.
pub record Follows (r' q q' : Reader) (more : Bytes) : Type 0 where
  pub same : q'.s ≡ q.s
  pub extends : Extends r' q' more

uvarint_loop-Follows :
    (k : ℕ) (r r' q : Reader) (x s v : ℕ) (more : Bytes)
    → Extends r q more
    → uvarint_loop k r x s ≡ ok (v, r')
    → (q' : Reader) × (uvarint_loop k q x s ≡ ok (v, q')) × Follows r' q q' more
unfolding uvarint_loop
uvarint_loop-Follows zero r r' q x s v more ext e = cc
uvarint_loop-Follows (suc k) r r' q x s v more ext e = elim (List-cases (rest r)) [
  | inl end ↦ ground (arith, end)
  | inr (b, bs, here) ↦
      let there : rest q ≡ b ∷ (bs ++ more) = ext ∙ ap (λ z. z ++ more) here in
      let byte = read_byte_lem r b bs here in
      let byte_q = read_byte_lem q b (bs ++ more) there in
      let ext' : Extends (advance r 1) (advance q 1) more =
        rest-advance q (b ∷ []) (bs ++ more) there
        ∙ ap (λ z. z ++ more) (sym (rest-advance r (b ∷ []) bs here)) in
      elim (Bool-cases (ltb b 128)) [
        | inl last ↦
            let final : advance r 1 ≡ r' = ground arith in
            (
              advance q 1,
              ground arith,
              record {
                same = refl;
                extends = subst (λ z. Extends z (advance q 1) more) final ext';
              },
            )
        | inr again ↦
            let (q', read, f) =
              uvarint_loop-Follows k (advance r 1) r' (advance q 1) (x + b % 128 * 2 ^ s) (s + 7) v
                more ext' (ground arith) in
            (q', ground (arith, read), record { same = f.same; extends = f.extends })
      ]
]

pub read_uvarint-Follows :
    (r r' q : Reader) (v : ℕ) (more : Bytes)
    → Extends r q more
    → read_uvarint r ≡ ok (v, r')
    → (q' : Reader) × (read_uvarint q ≡ ok (v, q')) × Follows r' q q' more
unfolding read_uvarint
read_uvarint-Follows r r' q v more ext e = uvarint_loop-Follows 10 r r' q 0 0 v more ext e

drop-take {ℓ} :
    {A : Type ℓ} (j n : ℕ) (xs : List A)
    → (more : List A) × (drop j xs ≡ drop j (take n xs) ++ more)
drop-take zero n xs = (drop n xs, sym (take-append-drop n xs))
drop-take (suc j) zero [] = ([], refl)
drop-take (suc j) (suc n) [] = ([], refl)
drop-take (suc j) zero (x ∷ xs) = (drop j xs, refl)
drop-take (suc j) (suc n) (x ∷ xs) = drop-take j n xs

-- A reader of a piece of the input, and the reader of the input at the same place.
pub piece-Extends :
    (at : Reader) (n j : ℕ)
    → (more : Bytes) × Extends (record { s = take n (rest at); i = j }) (advance at j) more
piece-Extends at n j =
    let (more, e) = drop-take j n (rest at) in (more, drop-drop at.i j (at.i + j) at.s refl ∙ e)

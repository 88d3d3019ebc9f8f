-- ===== src/Wire/Codec.antt =====
-- What a parser reads from what a writer wrote: `Reads p xs a` says that `p`, at any place of any
-- buffer where `xs` stands, yields `a` and moves past `xs`.
use smbanything.Base.{
  ℕ, ◌+◌, ◌*◌, ◌-◌, ◌<◌, ◌^◌, ◌≡◌, refl, ap, sym, subst, ◌∙◌, some, List, [], ◌∷◌, ◌++◌, arith,
  length, drop, le_bytes, le_value, length-le_bytes, le_value-le_bytes, length-append, length-drop,
  take-append_eq, drop-append_length, drop-add, append_assoc,
}
use smbanything.Wire.Reader
use smbanything.Wire.Reader.{Reader, Parse, pure, ◌>>=◌, u8, u16, u32, u64, skip, bytes}

-- The cursor after `n` more bytes.
abbrev pub advance : ℕ → Reader → Reader
advance n r = record r { pos = r.pos + n }

pub record Reads {A : Type 0} (p : Parse A) (xs : List ℕ) (a : A) : Type 0 where
  pub at :
      (r : Reader) (ys : List ℕ)
      → drop r.pos r.buf ≡ xs ++ ys
      → p r ≡ some (a, advance (length xs) r)

abbrev remaining_drop :
    (r : Reader) (zs : List ℕ) → drop r.pos r.buf ≡ zs → length r.buf - r.pos ≡ length zs
remaining_drop r zs h = sym (length-drop r.pos r.buf) ∙ ap length h

Reads-take : (n : ℕ) (xs : List ℕ) → length xs ≡ n → Reads (Reader.take n) xs xs
unfolding Reader.take
Reads-take n xs k = record {
  at = λ r ys h.
      let m : length r.buf - r.pos ≡ length xs + length ys =
        remaining_drop r (xs ++ ys) h ∙ length-append xs ys in
      ground (arith, k, m, h, take-append_eq n xs ys k);
}

Reads-map :
    {A B : Type 0} (p : Parse A) (f : A → B) (xs : List ℕ) (a : A)
    → Reads p xs a
    → Reads (p >>= λ x. pure (f x)) xs (f a)
Reads-map p f xs a h = record { at = λ r ys e. rw (h.at r ys e, ◌>>=◌) refl }

Reads-word :
    (n v : ℕ) → v < 256 ^ n → Reads (Reader.take n >>= λ bs. pure (le_value bs)) (le_bytes n v) v
Reads-word n v fits =
    let xs = le_bytes n v in
    subst (λ w. Reads (Reader.take n >>= λ bs. pure (le_value bs)) xs w)
      (le_value-le_bytes n v fits)
      (Reads-map (Reader.take n) le_value xs xs (Reads-take n xs (length-le_bytes n v)))

pub Reads-u8 : (v : ℕ) → Reads u8 (v ∷ []) v
unfolding u8
Reads-u8 v =
    let xs : List ℕ = v ∷ [] in
    subst (λ w. Reads u8 xs w) (let e : v + 256 * 0 ≡ v = omega arith in e)
      (Reads-map (Reader.take 1) le_value xs xs (Reads-take 1 xs refl))

pub Reads-u16 : (v : ℕ) → v < 2 ^ 16 → Reads u16 (le_bytes 2 v) v
unfolding u16
Reads-u16 v h = Reads-word 2 v h

pub Reads-u32 : (v : ℕ) → v < 2 ^ 32 → Reads u32 (le_bytes 4 v) v
unfolding u32
Reads-u32 v h = Reads-word 4 v h

pub Reads-u64 : (v : ℕ) → v < 2 ^ 64 → Reads u64 (le_bytes 8 v) v
unfolding u64
Reads-u64 v h = Reads-word 8 v h

pub Reads-bytes : (n : ℕ) (xs : List ℕ) → length xs ≡ n → Reads (bytes n) xs xs
unfolding bytes
Reads-bytes n xs h = Reads-take n xs h

pub Reads-skip : (n : ℕ) (xs : List ℕ) → length xs ≡ n → Reads (skip n) xs tt
unfolding skip
Reads-skip n xs k = Reads-map (Reader.take n) (λ _. tt) xs xs (Reads-take n xs k)

module _ {A B : Type 0} where
  pub Reads-bind :
      (p : Parse A) (f : A → Parse B) (xs ys : List ℕ) (a : A) (b : B)
      → Reads p xs a
      → Reads (f a) ys b
      → Reads (p >>= f) (xs ++ ys) b
  Reads-bind p f xs ys a b hp hf = record {
    at = λ r zs h.
        let e : drop r.pos r.buf ≡ xs ++ (ys ++ zs) = h ∙ append_assoc xs ys zs in
        let here = hp.at r (ys ++ zs) e in
        let there = hf.at (advance (length xs) r) zs (
          drop-add r.pos (length xs) r.buf
          ∙ ap (drop (length xs)) e
          ∙ drop-append_length xs (ys ++ zs)) in
        rw (here, ◌>>=◌)
          (there
            ∙ ap (λ n. some (b, record { buf = r.buf; pos = n }))
                (omega (arith, length-append xs ys)));
  }

pub Reads-pure : {B : Type 0} (b : B) → Reads (pure b) [] b
Reads-pure b = record {
  at = λ r zs h. ap (λ n. some (b, record { buf = r.buf; pos = n })) (omega arith);
}

-- ===== src/Windows/Reading.antt =====
-- What the first loop of a window leaves, and what depends on the bytes of a key only.
use fast_chd.Base.{
  ℕ, zero, suc, ◌+◌, ◌*◌, ◌≤◌, ◌<◌, ◌≡◌, ◌∙◌, refl, sym, ap, arith, if◌then◌else◌, Option, none,
  some, List, Bool-cases, inl, inr, each_inv, store, store_self, store_ne, ◌==◌, ==_iff,
}
use fast_chd.Base.Memory.{Memory, read_le}
use fast_chd.Hash.Locality.{SameBytes, gen_id_move, read_le_move}
use fast_chd.Search.Copy.{copy_other, copy_here}
use fast_chd.Search.{copy, equal_bytes, equal, match_line}
use fast_chd.Table.{PackView, calc1}
use fast_chd.Windows.{Window, read_keys}
use mathlib.Core.Path.{subst}
use native.Mathlib.Nat.{mul-le-mul, le_refl}

-- The comparison reads the bytes of the key only.
equal_bytes_move :
    (n : ℕ) (kmem kmem' mem : Memory) (a a' b : ℕ)
    → SameBytes n kmem a kmem' a'
    → equal_bytes n kmem a mem b ≡ equal_bytes n kmem' a' mem b
unfolding equal_bytes
equal_bytes_move zero kmem kmem' mem a a' b h = refl
equal_bytes_move (suc n) kmem kmem' mem a a' b h =
    let here : kmem a ≡ kmem' a' =
      ap kmem (plus0 a) ∙ h 0 (omega arith) ∙ ap kmem' (sym (plus0 a')) in
    rw
      (
        here,
        equal_bytes_move n kmem kmem' mem (a + 1) (a' + 1) (b + 1)
            (λ i l. ap kmem (move a i) ∙ h (suc i) (omega arith) ∙ ap kmem' (sym (move a' i))),
      )
      refl
  where
    plus0 : (x : ℕ) → x ≡ x + 0
    plus0 x = omega arith

    move : (x i : ℕ) → x + 1 + i ≡ x + suc i
    move x i = omega arith

equal_move :
    (kmem kmem' mem : Memory) (a a' b len : ℕ)
    → SameBytes len kmem a kmem' a'
    → equal kmem a mem b len ≡ equal kmem' a' mem b len
unfolding equal
equal_move kmem kmem' mem a a' b len h = elim (Bool-cases (len == 8)) [
  | inl e ↦ rw (e, word 8 ((==_iff len 8).0 e)) refl
  | inr n ↦ elim (Bool-cases (len == 4)) [
    | inl e ↦ rw (n, e, word 4 ((==_iff len 4).0 e)) refl
    | inr k ↦ rw (n, k) (equal_bytes_move len kmem kmem' mem a a' b h)
  ]
]
  where
    word : (w : ℕ) → len ≡ w → read_le w kmem a ≡ read_le w kmem' a'
    word w e = read_le_move w kmem a kmem' a' (λ i l. h i (omega arith))

pub match_line_move :
    (kmem kmem' mem : Memory) (a a' : ℕ) (line : Option ℕ) (len : ℕ)
    → SameBytes len kmem a kmem' a'
    → match_line kmem mem a line len ≡ match_line kmem' mem a' line len
unfolding match_line
match_line_move kmem kmem' mem a a' none len h = refl
match_line_move kmem kmem' mem a a' (some line) len h =
    ap (λ b. if b then some line else none) (equal_move kmem kmem' mem a a' line len h)

slot-le : (j r len : ℕ) → j < r → j * len + len ≤ r * len
slot-le j r len h = let le : suc j ≤ r = omega arith in omega (arith, mul-le-mul le (le_refl len))

module _ (pack : PackView) (mem : Memory) (key : ℕ → Memory) where
  pub record Read (stride i r : ℕ) (out : List ℕ) (t : Window) : Type 0 where
    pub same : (j : ℕ) → j < r → SameBytes stride t.buf (j * stride) (key (i + j)) 0
    pub step1 : (j : ℕ) → j < r → t.s1 j ≡ calc1 pack (key (i + j)) 0 pack.key_len
    pub kept : t.out ≡ out

  calc1_move :
      (stride : ℕ) (buf kmem : Memory) (a b : ℕ)
      → pack.key_len ≤ stride
      → SameBytes stride buf a kmem b
      → calc1 pack buf a pack.key_len ≡ calc1 pack kmem b pack.key_len
  unfolding calc1
  calc1_move stride buf kmem a b le h =
      rw (gen_id_move buf a kmem b pack.key_len (λ i l. h i (omega arith)) pack.seed) refl

  -- One key more.
  Read-more :
      (stride i r : ℕ) (out : List ℕ) (t : Window)
      → pack.key_len ≤ stride
      → Read stride i r out t
      → Read stride i (suc r) out (record t {
        buf = copy t.buf (r * stride) (key (i + r)) 0 stride;
        s1 =
            store t.s1 r (
              calc1 pack
                (copy t.buf (r * stride) (key (i + r)) 0 stride)
                (r * stride)
                pack.key_len);
      })
  Read-more stride i r out t le h =
      let buf = copy t.buf (r * stride) (key (i + r)) 0 stride in
      let mine : SameBytes stride buf (r * stride) (key (i + r)) 0 =
        λ b l. copy_here t.buf (key (i + r)) (r * stride) 0 stride b l in
      record {
        same = λ j l. elim (Bool-cases (j == r)) [
          | inl e ↦
              subst (λ (x : ℕ). SameBytes stride buf (x * stride) (key (i + x)) 0)
                (sym ((==_iff j r).0 e)) mine
          | inr ne ↦ λ b k.
              let less : j < r = ground arith in
              copy_other t.buf (key (i + r)) (r * stride) 0 stride (j * stride + b)
                (inl (omega (arith, slot-le j r stride less)))
              ∙ h.same j less b k
        ];
        step1 = λ j l. elim (Bool-cases (j == r)) [
          | inl e ↦
              let e' = (==_iff j r).0 e in
              store_self t.s1 r _ j e'
              ∙ rw e' (calc1_move stride buf (key (i + r)) (r * stride) 0 le mine)
          | inr ne ↦ store_ne t.s1 r _ j (λ e. ground (arith, e)) ∙ h.step1 j (ground arith)
        ];
        kept = h.kept;
      }

  pub read_keys_lem :
      (stride i m : ℕ) (w : Window)
      → pack.key_len ≤ stride
      → Read stride i m w.out (read_keys pack mem key stride i m w)
  unfolding read_keys
  read_keys_lem stride i m w le =
      each_inv (λ r t. Read stride i r w.out t) m _ w
        (record {
          same = λ j l. absurd (omega arith);
          step1 = λ j l. absurd (omega arith);
          kept = refl;
        })
        (λ r t l h. Read-more stride i r w.out t le h)

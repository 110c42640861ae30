-- ===== src/RbTree/Balance/Shrink.antt =====
-- `Delete` of internal/orderbook/rbtree.go and the colours.
use matchengine.Prelude.{ℕ, suc, ◌+◌, ◌≡◌, refl, sym, subst, ap, List, [], ◌∷◌, inl, inr, arith}
use matchengine.RbTree.Defs.{
  Color, red, black, Tree, leaf, node, Frame, is_red, color_of, set_color, plug, went_left,
  went_right, left_of, right_of,
}
use matchengine.RbTree.Delete.{black_sibling, red_sibling, delete_fixup}
use matchengine.RbTree.Balance.{
  weight, height, Below, IsRedBlack, Fits, color_of-set_color, plug-IsRedBlack, black-IsRedBlack,
}
use matchengine.RbTree.Balance.Turn.{IsShort, recolored, rotated}
use matchengine.RbTree.Balance.Grow.{Color-cases}

module _ {K V : Type 0} where
  black_sibling-IsRedBlack :
      (p : Frame K V) (path : List (Frame K V)) (x : Tree K V) (climb : Tree K V → Tree K V)
      → IsRedBlack x
      → color_of x ≡ black
      → color_of p.sibling ≡ black
      → Fits (p ∷ path) (suc (height x))
      → ((t : Tree K V)
          → IsShort t (height x + weight p.color)
          → color_of t ≡ p.color
          → IsRedBlack (climb t))
      → IsRedBlack (black_sibling p path x climb)
  unfolding black_sibling
  black_sibling-IsRedBlack p path x climb v x_black w_black h go =
      let w = p.sibling in
      elim (Color-cases (color_of (left_of w))) [
        | inr l_black ↦ elim (Color-cases (color_of (right_of w))) [
          | inr r_black ↦
              let (short, c) =
                recolored p path x (black-IsRedBlack x v, refl) x_black w_black l_black r_black h in
              rw (ap is_red l_black) (rw (ap is_red r_black) (go _ short c))
          | inl r_red ↦ rotated p path x climb v w_black (inr r_red) h
        ]
        | inl l_red ↦ rotated p path x climb v w_black (inl l_red) h
      ]

  raised :
      (t : Tree K V) (n : ℕ) → height t ≡ n → color_of t ≡ red → height (set_color black t) ≡ suc n
  unfolding set_color
  raised t n h c = ground arith

  -- What climbing ends with, under a frame whose node is black.
  climbed :
      (w : Frame K V) (path : List (Frame K V)) (n : ℕ)
      → Fits (w ∷ path) (suc n)
      → (t : Tree K V) → IsShort t (n + 0)
      → color_of t ≡ red
      → IsRedBlack (plug (w ∷ path) (set_color black t))
  climbed w path n h t (v, e) c =
      plug-IsRedBlack (w ∷ path) (set_color black t) v
        (subst (λ d. Below d (w ∷ path)) (sym (color_of-set_color t)) tt)
        (subst (Fits (w ∷ path)) (sym (raised t n (omega (arith, e)) c)) h)

  -- A red sibling's children are black, and fit as siblings below it.
  inner :
      (p : Frame K V) (path : List (Frame K V)) (n : ℕ) (c : Color) (wl : Tree K V) (wk : K)
      (wv : V) (wr : Tree K V)
      → node c wl wk wv wr ≡ p.sibling
      → c ≡ red
      → Fits (p ∷ path) (suc n)
      → (color_of wl ≡ black)
        × (color_of wr ≡ black)
        × Fits (record p { color = red; sibling = wl } ∷ went_left black wk wv wr ∷ path) (suc n)
        × Fits (record p { color = red; sibling = wr } ∷ went_right black wk wv wl ∷ path) (suc n)
        × Fits (went_left black wk wv wr ∷ path) (suc n)
        × Fits (went_right black wk wv wl ∷ path) (suc n)
  inner p path n c wl wk wv wr e w_red h = ground arith

  -- The sibling is red: it goes above the parent, and its inner child is the new sibling.
  red_sibling-IsRedBlack :
      (p : Frame K V) (path : List (Frame K V)) (x w : Tree K V) (climb : Tree K V → Tree K V)
      → w ≡ p.sibling
      → IsRedBlack x
      → color_of x ≡ black
      → color_of w ≡ red
      → Fits (p ∷ path) (suc (height x))
      → IsRedBlack (red_sibling p path x w climb)
  unfolding red_sibling
  red_sibling-IsRedBlack p path x leaf climb e v x_black w_red h = cc
  red_sibling-IsRedBlack p path x (node c wl wk wv wr) climb e v x_black w_red h =
      let (l_black, r_black, on_left, on_right, above_left, above_right) =
        inner p path (height x) c wl wk wv wr e w_red h in
      let lw = went_left black wk wv wr in
      let rw_frame = went_right black wk wv wl in
      ground (
        arith,
        black_sibling-IsRedBlack (record p { color = red; sibling = wl }) (lw ∷ path) x
            (λ parent. plug (lw ∷ path) (set_color black parent)) v x_black l_black on_left
            (climbed lw path (height x) above_left),
        black_sibling-IsRedBlack (record p { color = red; sibling = wr }) (rw_frame ∷ path) x
            (λ parent. plug (rw_frame ∷ path) (set_color black parent)) v x_black r_black on_right
            (climbed rw_frame path (height x) above_right),
      )

  blackened : (x : Tree K V) → IsRedBlack (set_color black x) → color_of x ≡ black → IsRedBlack x
  unfolding set_color
  blackened leaf v c = v
  blackened (node red l k y r) v c = cc
  blackened (node black l k y r) v c = v

  pub delete_fixup-IsRedBlack :
      (path : List (Frame K V)) (x : Tree K V)
      → IsRedBlack (set_color black x)
      → Fits path (suc (height x))
      → IsRedBlack (delete_fixup path x)
  unfolding delete_fixup
  delete_fixup-IsRedBlack [] x v h = v
  delete_fixup-IsRedBlack (p ∷ path) x v h = elim (Color-cases (color_of x)) [
    | inl x_red ↦ rw (ap is_red x_red) (
        plug-IsRedBlack (p ∷ path) (set_color black x) v
          (subst (λ d. Below d (p ∷ path)) (sym (color_of-set_color x)) tt)
          (subst (Fits (p ∷ path)) (sym (raised x (height x) refl x_red)) h))
    | inr x_black ↦ elim (Color-cases (color_of p.sibling)) [
      | inl w_red ↦ rw (ap is_red x_black) (
          rw (ap is_red w_red) (
            red_sibling-IsRedBlack p path x p.sibling (λ t. delete_fixup path t) refl
              (blackened x v x_black) x_black w_red h))
      | inr w_black ↦ rw (ap is_red x_black) (
          rw (ap is_red w_black) (
            black_sibling-IsRedBlack p path x (λ t. delete_fixup path t) (blackened x v x_black)
              x_black w_black h
              (λ t short c.
                delete_fixup-IsRedBlack path t short.0
                  (subst (Fits path) (omega (arith, short.1)) h.4))))
    ]
  ]

-- ===== src/RbTree/Balance/Turn.antt =====
-- The end of `deleteFixup` of internal/orderbook/rbtree.go and the colours: a black sibling with a red child, and
-- the rotation round the parent.
use matchengine.Prelude.{
  ℕ, suc, ◌+◌, ◌≡◌, refl, sym, subst, ap, List, ◌∷◌, false, inl, inr, ◌⊎◌, if◌then◌else◌, ◌&&◌, not,
  arith,
}
use matchengine.RbTree.Defs.{
  Color, red, black, Tree, Side, left, right, Frame, is_red, color_of, set_color, attach, plug,
  left_rotate, right_rotate, left_of, right_of, set_left_color, set_right_color,
}
use matchengine.RbTree.Delete.{black_sibling}
use matchengine.RbTree.Balance.{
  weight, height, Below, IsRedBlack, Fits, plug-IsRedBlack, black-IsRedBlack,
}
use matchengine.RbTree.Balance.Grow.{Color-cases}

pub Side-cases : (s : Side) → (s ≡ left) ⊎ (s ≡ right)
Side-cases left = inl refl
Side-cases right = inr refl

pub not_both : (c d : Color) → (c ≡ red) ⊎ (d ≡ red) → (not (is_red c) && not (is_red d)) ≡ false
not_both c d h = ground arith

module _ {K V : Type 0} where
  -- A tree one black node short on every way down, which is as it should be once its root is black.
  abbrev pub IsShort : Tree K V → ℕ → Type 0
  IsShort x n = IsRedBlack (set_color black x) × (height x ≡ n)

  -- The sibling is black with two black children: what the loop goes on with.
  pub recolored :
      (p : Frame K V) (path : List (Frame K V)) (x : Tree K V)
      → IsShort x (height x)
      → color_of x ≡ black
      → color_of p.sibling ≡ black
      → color_of (left_of p.sibling) ≡ black
      → color_of (right_of p.sibling) ≡ black
      → Fits (p ∷ path) (suc (height x))
      → let t = attach (record p { sibling = set_color red p.sibling }) x in
        IsShort t (height x + weight p.color) × (color_of t ≡ p.color)
  unfolding attach set_color
  recolored p path x v x_black w_black l_black r_black h = ground arith

  -- A sibling whose outer child is red.
  abbrev LeansRight : Tree K V → ℕ → Type 0
  LeansRight w n =
      IsRedBlack w × (height w ≡ suc n) × (color_of w ≡ black) × (color_of (right_of w) ≡ red)

  abbrev LeansLeft : Tree K V → ℕ → Type 0
  LeansLeft w n =
      IsRedBlack w × (height w ≡ suc n) × (color_of w ≡ black) × (color_of (left_of w) ≡ red)

  pub turned_right :
      (w : Tree K V) (n : ℕ)
      → LeansLeft w n
      → color_of (right_of w) ≡ black
      → LeansRight (right_rotate (set_color red (set_left_color black w))) n
  unfolding set_color set_left_color right_rotate
  turned_right w n h r_black = ground arith

  pub turned_left :
      (w : Tree K V) (n : ℕ)
      → LeansRight w n
      → color_of (left_of w) ≡ black
      → LeansLeft (left_rotate (set_color red (set_right_color black w))) n
  unfolding set_color set_right_color left_rotate
  turned_left w n h l_black = ground arith

  -- The rotation that ends the loop.
  pub left_end :
      (p : Frame K V) (x w : Tree K V)
      → p.side ≡ left
      → IsRedBlack x
      → LeansRight w (height x)
      → let t = left_rotate (
          attach
            (record p { color = black; sibling = set_right_color black (set_color p.color w) })
            x) in
        IsRedBlack t × (height t ≡ suc (height x) + weight p.color) × (color_of t ≡ p.color)
  unfolding attach set_color set_right_color left_rotate
  left_end p x w side v h = ground arith

  pub right_end :
      (p : Frame K V) (x w : Tree K V)
      → p.side ≡ right
      → IsRedBlack x
      → LeansLeft w (height x)
      → let t = right_rotate (
          attach
            (record p { color = black; sibling = set_left_color black (set_color p.color w) })
            x) in
        IsRedBlack t × (height t ≡ suc (height x) + weight p.color) × (color_of t ≡ p.color)
  unfolding attach set_color set_left_color right_rotate
  right_end p x w side v h = ground arith

  -- The rest of the tree round the result.
  pub ended :
      (p : Frame K V) (path : List (Frame K V)) (t : Tree K V) (n : ℕ)
      → IsRedBlack t × (height t ≡ n + weight p.color) × (color_of t ≡ p.color)
      → Fits (p ∷ path) n
      → IsRedBlack (set_color black (plug path t))
  ended p path t n (v, e, c) h =
      let (fits, above, sibling, below, rest) = h in
      black-IsRedBlack (plug path t) (
        plug-IsRedBlack path t v (subst (λ d. Below d path) (sym c) below)
          (subst (Fits path) (sym e) rest))

  -- A black sibling as it stands, and its turn where the outer child is black.
  abbrev Sibling : Tree K V → ℕ → Type 0
  Sibling w n = IsRedBlack w × (height w ≡ suc n) × (color_of w ≡ black)

  pub left_case :
      (p : Frame K V) (path : List (Frame K V)) (x w : Tree K V)
      → p.side ≡ left
      → IsRedBlack x
      → Sibling w (height x)
      → (color_of (left_of w) ≡ red) ⊎ (color_of (right_of w) ≡ red)
      → Fits (p ∷ path) (suc (height x))
      → let turned =
          if is_red (color_of (right_of w))
          then w
          else right_rotate (set_color red (set_left_color black w)) in
        IsRedBlack (
          set_color black (
            plug path (
              left_rotate (
                attach
                  (record p {
                    color = black;
                    sibling = set_right_color black (set_color p.color turned);
                  })
                  x))))
  left_case p path x w side v (vw, hw, cw) one h = elim (Color-cases (color_of (right_of w))) [
    | inl r_red ↦
        rw (ap is_red r_red)
          (ended p path _ (suc (height x)) (left_end p x w side v (vw, hw, cw, r_red)) h)
    | inr r_black ↦
        let l_red : color_of (left_of w) ≡ red = ground (arith, one) in
        rw (ap is_red r_black) (
          ended p path _ (suc (height x))
            (left_end p x _ side v (turned_right w (height x) (vw, hw, cw, l_red) r_black)) h)
  ]

  pub right_case :
      (p : Frame K V) (path : List (Frame K V)) (x w : Tree K V)
      → p.side ≡ right
      → IsRedBlack x
      → Sibling w (height x)
      → (color_of (left_of w) ≡ red) ⊎ (color_of (right_of w) ≡ red)
      → Fits (p ∷ path) (suc (height x))
      → let turned =
          if is_red (color_of (left_of w))
          then w
          else left_rotate (set_color red (set_right_color black w)) in
        IsRedBlack (
          set_color black (
            plug path (
              right_rotate (
                attach
                  (record p {
                    color = black;
                    sibling = set_left_color black (set_color p.color turned);
                  })
                  x))))
  right_case p path x w side v (vw, hw, cw) one h = elim (Color-cases (color_of (left_of w))) [
    | inl l_red ↦
        rw (ap is_red l_red)
          (ended p path _ (suc (height x)) (right_end p x w side v (vw, hw, cw, l_red)) h)
    | inr l_black ↦
        let r_red : color_of (right_of w) ≡ red = ground (arith, one) in
        rw (ap is_red l_black) (
          ended p path _ (suc (height x))
            (right_end p x _ side v (turned_left w (height x) (vw, hw, cw, r_red) l_black)) h)
  ]

  -- The way out that ends the loop.
  pub rotated :
      (p : Frame K V) (path : List (Frame K V)) (x : Tree K V) (climb : Tree K V → Tree K V)
      → IsRedBlack x
      → color_of p.sibling ≡ black
      → (color_of (left_of p.sibling) ≡ red) ⊎ (color_of (right_of p.sibling) ≡ red)
      → Fits (p ∷ path) (suc (height x))
      → IsRedBlack (black_sibling p path x climb)
  unfolding black_sibling
  rotated p path x climb v w_black one h =
      let (fits, above, vw, below, rest) = h in
      let on_left =
        λ (e : p.side ≡ left). left_case p path x p.sibling e v (vw, fits, w_black) one h in
      let on_right =
        λ (e : p.side ≡ right). right_case p path x p.sibling e v (vw, fits, w_black) one h in
      rw (not_both (color_of (left_of p.sibling)) (color_of (right_of p.sibling)) one)
        (elim (Side-cases p.side) [ inl e ↦ rw e (on_left e) | inr e ↦ rw e (on_right e) ])

-- ===== src/RbTree/InOrder.antt =====
-- The entries of a tree in order, through recolouring, rotating and the two repair loops of
-- internal/orderbook/rbtree.go.
use matchengine.Prelude.{◌≡◌, refl, sym, ap, ◌∙◌, List, [], ◌∷◌, ◌++◌, append_assoc, arith}
use matchengine.RbTree.Defs.{
  went_left, went_right, Color, red, black, Tree, leaf, node, left, right, Frame, set_color,
  set_left_color, set_right_color, left_rotate, right_rotate, attach, plug,
}
use matchengine.RbTree.Insert.{rotate_up, insert_fixup}
use matchengine.RbTree.Delete.{black_sibling, red_sibling, delete_fixup}

module _ {K V : Type 0} where
  abbrev pub to_list : Tree K V → List (K × V)
  to_list leaf = []
  to_list (node c l k v r) = to_list l ++ (k, v) ∷ to_list r

  -- The entries of a node, given those of the child one came from.
  abbrev pub beside : Frame K V → List (K × V) → List (K × V)
  beside f xs = elim f.side [
    | left ↦ xs ++ (f.key, f.value) ∷ to_list f.sibling
    | right ↦ to_list f.sibling ++ (f.key, f.value) ∷ xs
  ]

  abbrev pub around : List (Frame K V) → List (K × V) → List (K × V)
  around [] xs = xs
  around (f ∷ path) xs = around path (beside f xs)

  pub to_list-attach : (f : Frame K V) (t : Tree K V) → to_list (attach f t) ≡ beside f (to_list t)
  unfolding attach
  to_list-attach f t = ground arith

  pub to_list-plug :
      (path : List (Frame K V)) (t : Tree K V) → to_list (plug path t) ≡ around path (to_list t)
  unfolding plug
  to_list-plug [] t = refl
  to_list-plug (f ∷ path) t = to_list-plug path (attach f t) ∙ ap (around path) (to_list-attach f t)

  pub around-append :
      (p q : List (Frame K V)) (xs : List (K × V)) → around (p ++ q) xs ≡ around q (around p xs)
  around-append [] q xs = refl
  around-append (f ∷ p) q xs = around-append p q (beside f xs)

  pub to_list-set_color : (c : Color) (t : Tree K V) → to_list (set_color c t) ≡ to_list t
  unfolding set_color
  to_list-set_color c leaf = refl
  to_list-set_color c (node d l k v r) = refl

  pub to_list-set_left_color : (c : Color) (t : Tree K V) → to_list (set_left_color c t) ≡ to_list t
  unfolding set_left_color
  to_list-set_left_color c leaf = refl
  to_list-set_left_color c (node d l k v r) = rw (to_list-set_color c l)

  pub to_list-set_right_color :
      (c : Color) (t : Tree K V) → to_list (set_right_color c t) ≡ to_list t
  unfolding set_right_color
  to_list-set_right_color c leaf = refl
  to_list-set_right_color c (node d l k v r) = rw (to_list-set_color c r)

  pub to_list-left_rotate : (t : Tree K V) → to_list (left_rotate t) ≡ to_list t
  unfolding left_rotate
  to_list-left_rotate leaf = refl
  to_list-left_rotate (node c a k v leaf) = refl
  to_list-left_rotate (node c a k v (node d b j w e)) =
      append_assoc (to_list a) ((k, v) ∷ to_list b) ((j, w) ∷ to_list e)

  pub to_list-right_rotate : (t : Tree K V) → to_list (right_rotate t) ≡ to_list t
  unfolding right_rotate
  to_list-right_rotate leaf = refl
  to_list-right_rotate (node c leaf k v b) = refl
  to_list-right_rotate (node c (node d a j w b) k v e) =
      sym (append_assoc (to_list a) ((j, w) ∷ to_list b) ((k, v) ∷ to_list e))

  ruleset shapes = (
    to_list-set_color, to_list-set_left_color, to_list-set_right_color, to_list-left_rotate,
    to_list-right_rotate, to_list-attach, to_list-plug,
  )

  pub to_list-left_turn :
      (f : Frame K V) (t : Tree K V) → to_list (left_rotate (attach f t)) ≡ beside f (to_list t)
  to_list-left_turn f t = to_list-left_rotate (attach f t) ∙ to_list-attach f t

  pub to_list-right_turn :
      (f : Frame K V) (t : Tree K V) → to_list (right_rotate (attach f t)) ≡ beside f (to_list t)
  to_list-right_turn f t = to_list-right_rotate (attach f t) ∙ to_list-attach f t

  -- The last rotation, round the grandparent, whatever the parent became.
  to_list-top_turn :
      (g : Frame K V) (parent : Tree K V) (xs : List (K × V))
      → to_list parent ≡ xs
      → (to_list (right_rotate (attach (record g { color = red }) (set_color black parent)))
          ≡ beside g xs)
        × (to_list (left_rotate (attach (record g { color = red }) (set_color black parent)))
            ≡ beside g xs)
  to_list-top_turn g parent xs e =
      let h = ap (beside g) (to_list-set_color black parent ∙ e) in
      (
        to_list-right_turn (record g { color = red }) (set_color black parent) ∙ h,
        to_list-left_turn (record g { color = red }) (set_color black parent) ∙ h,
      )

  to_list-rotate_up :
      (t : Tree K V) (p g : Frame K V) → to_list (rotate_up t p g) ≡ beside g (beside p (to_list t))
  unfolding rotate_up
  to_list-rotate_up t p g =
      let through = λ (parent : Tree K V). to_list-top_turn g parent (beside p (to_list t)) in
      ground (
        arith,
        through (attach p t) (to_list-attach p t),
        through (left_rotate (attach p t)) (to_list-left_turn p t),
        through (right_rotate (attach p t)) (to_list-right_turn p t),
      )

  pub to_list-insert_fixup :
      (path : List (Frame K V)) (t : Tree K V)
      → to_list (insert_fixup path t) ≡ around path (to_list t)
  unfolding insert_fixup
  to_list-insert_fixup [] t = to_list-set_color black t
  to_list-insert_fixup (p ∷ []) t = simp shapes
  to_list-insert_fixup (p ∷ g ∷ path) t = ground (
    arith,
    to_list-rotate_up t p g,
    to_list-set_color black (plug path (rotate_up t p g)),
    to_list-set_color black (plug (p ∷ g ∷ path) t),
    to_list-plug path (rotate_up t p g),
    to_list-plug (p ∷ g ∷ path) t,
    to_list-insert_fixup path (
        attach (record g { color = red; sibling = set_color black g.sibling })
          (attach (record p { color = black }) t)),
    to_list-attach (record g { color = red; sibling = set_color black g.sibling })
        (attach (record p { color = black }) t),
    to_list-attach (record p { color = black }) t,
    to_list-set_color black g.sibling,
  )

  beside_sibling :
      (p : Frame K V) (c : Color) (w : Tree K V) (xs : List (K × V))
      → to_list w ≡ to_list p.sibling
      → beside (record p { color = c; sibling = w }) xs ≡ beside p xs
  beside_sibling p c w xs e = ground arith

  -- The last rotations of `deleteFixup`, with a sibling that holds what it did.
  to_list-last_turn :
      (p : Frame K V) (path : List (Frame K V)) (x w : Tree K V)
      → to_list w ≡ to_list p.sibling
      → (to_list (
            set_color black
              (plug path (left_rotate (attach (record p { color = black; sibling = w }) x))))
          ≡ around path (beside p (to_list x)))
        × (to_list (
              set_color black
                (plug path (right_rotate (attach (record p { color = black; sibling = w }) x))))
            ≡ around path (beside p (to_list x)))
  to_list-last_turn p path x w e =
      let b = ap (around path) (beside_sibling p black w (to_list x) e) in
      (
        to_list-set_color black _
            ∙ to_list-plug path _
            ∙ ap (around path) (to_list-left_turn (record p { color = black; sibling = w }) x)
            ∙ b,
        to_list-set_color black _
            ∙ to_list-plug path _
            ∙ ap (around path) (to_list-right_turn (record p { color = black; sibling = w }) x)
            ∙ b,
      )

  -- Both ways on of a round keep the entries, if climbing does.
  to_list-black_sibling :
      (p : Frame K V) (path : List (Frame K V)) (x : Tree K V) (climb : Tree K V → Tree K V)
      → ((t : Tree K V) → to_list (climb t) ≡ around path (to_list t))
      → to_list (black_sibling p path x climb) ≡ around path (beside p (to_list x))
  unfolding black_sibling
  to_list-black_sibling p path x climb h =
      let w = p.sibling in
      let turn = λ (s : Tree K V). to_list-last_turn p path x s in
      let right_turned = right_rotate (set_color red (set_left_color black w)) in
      let left_turned = left_rotate (set_color red (set_right_color black w)) in
      ground (
        arith,
        h (attach (record p { sibling = set_color red w }) x),
        to_list-attach (record p { sibling = set_color red w }) x,
        beside_sibling p p.color (set_color red w) (to_list x) (to_list-set_color red w),
        turn (set_right_color black (set_color p.color w)) (simp shapes),
        turn (set_right_color black (set_color p.color right_turned)) (simp shapes),
        turn (set_left_color black (set_color p.color w)) (simp shapes),
        turn (set_left_color black (set_color p.color left_turned)) (simp shapes),
      )

  to_list-red_sibling :
      (p : Frame K V) (path : List (Frame K V)) (x w : Tree K V) (climb : Tree K V → Tree K V)
      → p.sibling ≡ w
      → ((t : Tree K V) → to_list (climb t) ≡ around path (to_list t))
      → to_list (red_sibling p path x w climb) ≡ around path (beside p (to_list x))
  unfolding red_sibling
  to_list-red_sibling p path x leaf climb e h =
      h (attach p x) ∙ ap (around path) (to_list-attach p x)
  to_list-red_sibling p path x (node c wl wk wv wr) climb e h =
      let lw : Frame K V = went_left black wk wv wr in
      let rw_frame : Frame K V = went_right black wk wv wl in
      let after = λ (w : Frame K V) (t : Tree K V).
        to_list-plug (w ∷ path) (set_color black t)
        ∙ ap (around (w ∷ path)) (to_list-set_color black t) in
      ground (
        arith,
        to_list-black_sibling (record p { color = red; sibling = wl }) (lw ∷ path) x
            (λ parent. plug (lw ∷ path) (set_color black parent)) (after lw),
        to_list-black_sibling (record p { color = red; sibling = wr }) (rw_frame ∷ path) x
            (λ parent. plug (rw_frame ∷ path) (set_color black parent)) (after rw_frame),
        append_assoc (to_list x) ((p.key, p.value) ∷ to_list wl) ((wk, wv) ∷ to_list wr),
        append_assoc (to_list wl) ((wk, wv) ∷ to_list wr) ((p.key, p.value) ∷ to_list x),
      )

  pub to_list-delete_fixup :
      (path : List (Frame K V)) (x : Tree K V)
      → to_list (delete_fixup path x) ≡ around path (to_list x)
  unfolding delete_fixup
  to_list-delete_fixup [] x = to_list-set_color black x
  to_list-delete_fixup (p ∷ path) x =
      let ih = to_list-delete_fixup path in
      ground (
        arith,
        to_list-plug (p ∷ path) (set_color black x),
        to_list-set_color black x,
        to_list-red_sibling p path x p.sibling (λ t. delete_fixup path t) refl ih,
        to_list-black_sibling p path x (λ t. delete_fixup path t) ih,
      )

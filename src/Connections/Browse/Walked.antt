-- ===== src/Connections/Browse/Walked.antt =====
-- Where the path leads that the browser lists (services/web/apps/connections/views.py,
-- `browse_directory`).
use mathlib.Core.List.{reverse, reverse-cons}
use tmask_tt.Base.{ℕ, ◌≡◌, refl, sym, ap, ◌∙◌, Bool, false, ◌||◌, List, [], ◌∷◌, ◌++◌, arith, ◌==◌}
use tmask_tt.Base.Text.{Text, text_eq, has_char, drop_while, split_on, join_with}
use tmask_tt.Base.Split.{NoneHas, NoneHas-split_on, NoneHas-reverse, split_on-join_with}
use tmask_tt.Transfers.Paths.{slash, enter, walk, walk-append}
use tmask_tt.Connections.Browse.{
  norm_step, norm_loop, is_rooted, leading, normpath, or_dot, is_slash, browse_path,
}

-- The directory that a list of components leads to from the root, the last component first.
dir_of : List Text → List Text
dir_of [] = []
dir_of (w ∷ ws) = enter (dir_of ws) w

walk-reverse : (kept : List Text) → walk [] (reverse kept) ≡ dir_of kept
unfolding dir_of walk
walk-reverse [] = refl
walk-reverse (w ∷ ws) =
    ap (walk []) (reverse-cons w ws)
    ∙ walk-append (reverse ws) [] w
    ∙ ap (λ d. enter d w) (walk-reverse ws)

-- Components that are no empty text and not '.'.
AreNames : List Text → Type 0
AreNames [] = Unit {0}
AreNames (w ∷ ws) = ((text_eq w [] || text_eq w (b'.' ∷ [])) ≡ false) × AreNames ws

norm_step-AreNames :
    (rooted : Bool) (kept : List Text) (w : Text)
    → AreNames kept
    → AreNames (norm_step rooted kept w)
unfolding AreNames norm_step
norm_step-AreNames rooted [] w h = ground arith
norm_step-AreNames rooted (v ∷ kept) w h = ground arith

norm_step-NoneHas :
    (rooted : Bool) (kept : List Text) (w : Text)
    → NoneHas slash kept
    → has_char slash w ≡ false
    → NoneHas slash (norm_step rooted kept w)
unfolding norm_step
norm_step-NoneHas rooted [] w h e = ground arith
norm_step-NoneHas rooted (v ∷ kept) w h e = ground arith

norm_step-dir_of :
    (rooted : Bool) (kept : List Text) (w : Text)
    → AreNames kept
    → dir_of (norm_step rooted kept w) ≡ enter (dir_of kept) w
unfolding AreNames norm_step dir_of
norm_step-dir_of rooted [] w h = ground arith
norm_step-dir_of rooted (v ∷ kept) w h = ground arith

norm_loop-AreNames :
    (rooted : Bool) (kept ws : List Text) → AreNames kept → AreNames (norm_loop rooted kept ws)
unfolding norm_loop
norm_loop-AreNames rooted kept [] h = h
norm_loop-AreNames rooted kept (w ∷ ws) h =
    norm_loop-AreNames rooted (norm_step rooted kept w) ws (norm_step-AreNames rooted kept w h)

norm_loop-NoneHas :
    (rooted : Bool) (kept ws : List Text)
    → NoneHas slash kept
    → NoneHas slash ws
    → NoneHas slash (norm_loop rooted kept ws)
unfolding norm_loop
norm_loop-NoneHas rooted kept [] h g = h
norm_loop-NoneHas rooted kept (w ∷ ws) h (e, g) =
    norm_loop-NoneHas rooted (norm_step rooted kept w) ws (norm_step-NoneHas rooted kept w h e) g

norm_loop-dir_of :
    (rooted : Bool) (kept ws : List Text)
    → AreNames kept
    → dir_of (norm_loop rooted kept ws) ≡ walk (dir_of kept) ws
unfolding norm_loop walk
norm_loop-dir_of rooted kept [] h = refl
norm_loop-dir_of rooted kept (w ∷ ws) h =
    norm_loop-dir_of rooted (norm_step rooted kept w) ws (norm_step-AreNames rooted kept w h)
    ∙ ap (λ d. walk d ws) (norm_step-dir_of rooted kept w h)

-- The leading slashes go.
drop-leading :
    (path : Text) (c : ℕ) (s : Text)
    → (c == slash) ≡ false
    → drop_while is_slash (or_dot (leading path ++ (c ∷ s))) ≡ c ∷ s
unfolding drop_while leading
drop-leading path c s h = ground arith

drop-leading_root :
    (path : Text)
    → walk [] (split_on slash (slash ∷ drop_while is_slash (or_dot (leading path ++ [])))) ≡ []
unfolding drop_while leading walk split_on
drop-leading_root path = ground arith

AreNames-append : (ws vs : List Text) → AreNames ws → AreNames vs → AreNames (ws ++ vs)
unfolding AreNames
AreNames-append [] vs h g = g
AreNames-append (w ∷ ws) vs (h, hs) g = (h, AreNames-append ws vs hs g)

AreNames-reverse : (ws : List Text) → AreNames ws → AreNames (reverse ws)
unfolding AreNames
AreNames-reverse [] h = tt
AreNames-reverse (w ∷ ws) (h, hs) =
    rw (reverse-cons w ws) (AreNames-append (reverse ws) (w ∷ []) (AreNames-reverse ws hs) (h, tt))

-- The words that are joined are those that the path is split into again, behind an empty one.
split_on-browsed :
    (path : Text) (c : ℕ) (s : Text) (ws vs : List Text)
    → (c == slash) ≡ false
    → join_with slash ws ≡ c ∷ s
    → split_on slash (join_with slash ws) ≡ vs
    → split_on slash (slash ∷ drop_while is_slash (or_dot (leading path ++ join_with slash ws)))
      ≡ [] ∷ vs
unfolding split_on
split_on-browsed path c s ws vs plain joined split =
    let dropped =
      ap (λ t. drop_while is_slash (or_dot (leading path ++ t))) joined
      ∙ drop-leading path c s plain
      ∙ sym joined in
    ap (λ rest. [] ∷ rest) (ap (split_on slash) dropped ∙ split)

walk-browsed :
    (path : Text) (ws : List Text)
    → AreNames ws
    → NoneHas slash ws
    → walk []
        (split_on slash (slash ∷ drop_while is_slash (or_dot (leading path ++ join_with slash ws))))
      ≡ walk [] ws
unfolding AreNames walk join_with
walk-browsed path [] h g = drop-leading_root path
walk-browsed path ([] ∷ ws) h g = absurd (ground arith)
walk-browsed path ((c ∷ w) ∷ []) h g = ap (walk []) (
    split_on-browsed path c w ((c ∷ w) ∷ []) ((c ∷ w) ∷ []) (ground arith) refl
      (split_on-join_with slash (c ∷ w) [] g))
walk-browsed path ((c ∷ w) ∷ v ∷ ws) h g =
    let words = (c ∷ w) ∷ v ∷ ws in
    let behind = w ++ (slash ∷ join_with slash (v ∷ ws)) in
    ap (walk []) (
      split_on-browsed path c behind words words (ground arith) refl
        (split_on-join_with slash (c ∷ w) (v ∷ ws) g))

-- Whatever path is asked for, the one that is listed leads from the root to the same directory, taking each
-- '..' for the parent and the root for its own parent.
pub walk-browse_path :
    (raw : Text) → walk [] (split_on slash (browse_path raw)) ≡ walk [] (split_on slash raw)
unfolding browse_path normpath AreNames dir_of
walk-browse_path raw =
    let ws = split_on slash raw in
    let kept = norm_loop (is_rooted raw) [] ws in
    let named = norm_loop-AreNames (is_rooted raw) [] ws tt in
    let plain = norm_loop-NoneHas (is_rooted raw) [] ws tt (NoneHas-split_on slash raw) in
    walk-browsed raw (reverse kept) (AreNames-reverse kept named) (NoneHas-reverse slash kept plain)
    ∙ walk-reverse kept
    ∙ norm_loop-dir_of (is_rooted raw) [] ws tt

-- ===== src/Api/Steps/Sound.antt =====
-- What the calls of api/v1_routing.go keep.
use mop_backend_api.Base.{
  ℕ, ◌≡◌, ◌≢◌, refl, sym, ◌∙◌, ap, subst, Bool, true, ◌&&◌, List, Option, ◌==◌, if◌then◌else◌, All,
  Distinct, map, arith, inl, inr, Bool-cases,
}
use mop_backend_api.Api.Visits.{Visit, Database, in_group, select, Among}
use mop_backend_api.Api.Rows.{ids_of, IsAmong-refl, Among-select}
use mop_backend_api.Api.Segments.{segments_valid, from_stop, index_up, index_down}
use mop_backend_api.Api.Segments.Changes.{
  IsChecked, IsShifted, IsJoined, HandleOutcome, split_segment_effect, join_segment_effect,
}
use mop_backend_api.Api.Reorder.{Direction, up, down, ReorderInput, on_side}
use mop_backend_api.Api.Reorder.Swap.{IsNeighbour, IsSwapped, exchanged, reorder_visit_effect}
use mop_backend_api.Api.Segments.{Response}
use mop_backend_api.Api.Steps.{Step, split, join, reorder, Reach, here, more, IsSound}
use mop_backend_api.Api.Steps.Kept.{
  kept_group, changed_group, unchanged_rows, from_stop-in_group, on_side-in_group, exchanged_group,
  exchanged_rows, ids_of-map_same, same_id_by, same_id_exchanged, Among-of_select, and_left,
}

module _ {S : Type 0} (db : Database S) where
  -- a change of one group that its check has accepted
  changed-IsSound :
      (g : ℕ) (f : Visit → Visit) (s s' : S)
      → IsSound db s
      → db.visits s' ≡ map f (db.visits s)
      → ((v : Visit) → (f v).id ≡ v.id)
      → ((h : ℕ) (v : Visit) → in_group h (f v) ≡ in_group h v)
      → ((h : ℕ) → g ≢ h → All (λ v. in_group h v ≡ true → f v ≡ v) (db.visits s))
      → IsChecked db g s'
      → IsSound db s'
  changed-IsSound g f s s' i rows same_id same_group others checked = record {
    keys = subst Distinct (sym (ap ids_of rows ∙ ids_of-map_same f (db.visits s) same_id)) i.keys;
    segments = λ h. elim (Bool-cases (g == h)) [
      | inl e ↦
          (let same : g ≡ h = ground arith in
            subst (λ k. segments_valid (db.sort (select (in_group k) (db.visits s'))) ≡ true) same
              checked.segments)
      | inr e ↦
          subst (λ l. segments_valid (db.sort l) ≡ true)
            (sym (
              ap (select (in_group h)) rows
              ∙ kept_group h f (db.visits s) (same_group h) (others h (λ p. ground arith))))
            (i.segments h)
    ];
  }

  shifted-IsSound :
      (change : Visit → Visit) (g visit : ℕ) (s s' : S)
      → ((v : Visit) → (change v).id ≡ v.id)
      → ((h : ℕ) (v : Visit) → in_group h (change v) ≡ in_group h v)
      → IsSound db s
      → IsShifted db change g visit s s'
      → IsSound db s'
  shifted-IsSound change g visit s s' same_id same_group i sh =
      let p = from_stop g sh.stop in
      changed-IsSound g (λ v. if p v then change v else v) s s' i sh.rows
        (λ v. same_id_by (p v) change v (same_id v)) (λ h. changed_group p change h (same_group h))
        (λ h ne. unchanged_rows p change g h (db.visits s) ne (from_stop-in_group g sh.stop))
        sh.checked

  neighbour-Among :
      (d : Direction) (g id stop : ℕ) (rows : List Visit) (v : Visit)
      → IsNeighbour d g id stop rows v
      → Among v rows × (in_group g v ≡ true)
  unfolding IsNeighbour
  neighbour-Among up g id stop rows v h = (
    Among-of_select (on_side up g id stop) v rows h.0,
    on_side-in_group up g id stop v (Among-select (on_side up g id stop) v rows h.0),
  )
  neighbour-Among down g id stop rows v h = (
    Among-of_select (on_side down g id stop) v rows h.0,
    on_side-in_group down g id stop v (Among-select (on_side down g id stop) v rows h.0),
  )

  swapped-IsSound :
      (g : ℕ) (input : ReorderInput) (s s' : S)
      → IsSound db s
      → IsSwapped db g input s s'
      → IsSound db s'
  swapped-IsSound g input s s' i sw =
      let v = sw.at_visit.row in
      let p : Visit → Bool = λ u. in_group g u && u.id == input.visit in
      let here : Among v (select p (db.visits s)) =
        subst (Among v) (sym sw.at_visit.found) (inl refl) in
      let (near, near_group) =
        neighbour-Among input.direction g v.id sw.stop (db.visits s) sw.other sw.nearest in
      let own = and_left (in_group g v) _ (Among-select p v (db.visits s) here) in
      changed-IsSound g (exchanged v.id sw.other.id sw.stop sw.other_stop) s s' i sw.rows
        (λ u. same_id_exchanged (u.id == v.id) (u.id == sw.other.id) sw.stop sw.other_stop u)
        (λ h u. exchanged_group h v.id sw.other.id sw.stop sw.other_stop u)
        (λ h ne.
          exchanged_rows g h v sw.other sw.stop sw.other_stop (db.visits s) (db.visits s) i.keys
            (Among-of_select p v (db.visits s) here) near own near_group ne
            (IsAmong-refl (db.visits s)))
        sw.checked

  outcome-IsSound :
      {A : Type 0} (promise : (user group : ℕ) → A → S → S → Type 0) (user group : Option ℕ)
      (input : Option A) (s s' : S) (r : Response)
      → ((u g : ℕ) (a : A) → promise u g a s s' → IsSound db s')
      → IsSound db s
      → HandleOutcome promise user group input s (r, s')
      → IsSound db s'
  unfolding HandleOutcome
  outcome-IsSound promise user group input s s' r kept i (inl (ne, same)) =
      subst (IsSound db) (sym same) i
  outcome-IsSound promise user group input s s' r kept i (inr (u, g, a, _, _, _, _, h)) =
      kept u g a h

  Step-IsSound : {s t : S} → Step db s t → IsSound db s → IsSound db t
  Step-IsSound (split user group visit s) i =
      outcome-IsSound (λ u. IsShifted db index_up) user group visit s _ _
        (λ u g v. shifted-IsSound index_up g v s _ (λ w. refl) (λ h w. refl) i) i
        (split_segment_effect db user group visit s)
  Step-IsSound (join user group visit s) i =
      outcome-IsSound (λ u. IsJoined db) user group visit s _ _
        (λ u g v h. shifted-IsSound index_down g v s _ (λ w. refl) (λ h w. refl) i h.shifted) i
        (join_segment_effect db user group visit s)
  Step-IsSound (reorder user group input s) i =
      outcome-IsSound (λ u. IsSwapped db) user group input s _ _
        (λ u g a. swapped-IsSound g a s _ i) i (reorder_visit_effect db user group input s)

  -- Start from tables with distinct visit ids in which the segments of every group are in order. After
  -- any sequence of calls of `SplitSegment`, `JoinSegment` and `ReorderVisit`, for any users, groups
  -- and visits and with any answers of the database, both are still so.
  pub Reach-IsSound : {s t : S} → Reach db s t → IsSound db s → IsSound db t
  Reach-IsSound here i = i
  Reach-IsSound (more r step) i = Step-IsSound step (Reach-IsSound r i)

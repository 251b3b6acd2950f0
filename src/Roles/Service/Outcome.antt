-- ===== src/Roles/Service/Outcome.antt =====
-- The roles that a member has after a call, against what the result says of them.
use rsl_mom_bot.Prelude.{
  ℕ, String, ◌≡◌, refl, Bool, true, false, not, ◌&&◌, ◌||◌, ◌==◌, if◌then◌else◌, Option, none, some,
  List, [], ◌∷◌, contains, contains-filter, filter, arith, Bool-cases, inl, inr,
}
use rsl_mom_bot.Prelude.Exec.{Result, ok, err, forbidden}
use rsl_mom_bot.Prelude.Int.{ℤ, eq_ℤ, eq_ℤ_refl}
use rsl_mom_bot.Roles.Models.{
  DayRoleMap, RoleSyncResult, Guild, RoleCall, add_call, remove_call, RoleApi, RoleWorld,
}
use rsl_mom_bot.Roles.Service.{
  DayMap, load_day_role_map, other_day_role, Target, missing, found, find_target,
  maybe_emit_hierarchy_loss, after_add, add_target, after_remove_other, swap_roles, assign_found,
  handle_assign, after_unassign, unassign_found, handle_unassign, apply_day_role, is_forced,
}

-- The roles that a member holds after the calls, the latest first: a call that succeeded did what
-- it says, and any other call did nothing.
unfoldable pub replay : ℤ → List RoleCall → List ℕ → List ℕ
replay member [] start = start
replay member (add_call m role (ok _) ∷ calls) start =
    let rest = replay member calls start in if eq_ℤ m member then role ∷ rest else rest
replay member (remove_call m role (ok _) ∷ calls) start =
    let rest = replay member calls start in
    if eq_ℤ m member then filter (λ x. not (x == role)) rest else rest
replay member (add_call m role (err e) ∷ calls) start = replay member calls start
replay member (remove_call m role (err e) ∷ calls) start = replay member calls start

maybe_emit-calls :
    (later : Guild) (role : ℕ) (w : RoleWorld)
    → (maybe_emit_hierarchy_loss later role w).calls ≡ w.calls
unfolding maybe_emit_hierarchy_loss
maybe_emit-calls later role w = ground arith

module _ (member : ℤ) (start : List ℕ) (q : ℕ) where
  -- Does the member hold role q after these calls?
  abbrev pub holds : List RoleCall → Bool
  holds calls = contains q (replay member calls start)

  holds-add :
      (role : ℕ) (calls : List RoleCall)
      → holds (add_call member role (ok tt) ∷ calls) ≡ ((q == role) || holds calls)
  unfolding replay
  holds-add role calls = rw (eq_ℤ_refl member) refl

  holds-remove :
      (role : ℕ) (calls : List RoleCall)
      → holds (remove_call member role (ok tt) ∷ calls) ≡ (holds calls && not (q == role))
  unfolding replay
  holds-remove role calls =
      rw (eq_ℤ_refl member) (contains-filter q role (replay member calls start))

  -- The roles listed as added and removed account for the change.
  abbrev Accounts : Bool → Result RoleSyncResult × RoleWorld → Type 0
  Accounts before (err e, w) = Unit
  Accounts before (ok res, w) =
      holds w.calls ≡ (contains q res.added || (before && not (contains q res.removed)))

  of_result :
      (before : Bool) (res : RoleSyncResult) (r : Result RoleSyncResult) (w : RoleWorld)
      → Accounts before (r, w)
      → r ≡ ok res
      → holds w.calls ≡ (contains q res.added || (before && not (contains q res.removed)))
  of_result before res (ok x) w a e = ground arith
  of_result before res (err x) w a e = cc

  module _ (api : RoleApi) (guild later : Guild) where
    after_add-Accounts :
        (before : Bool) (removed : List ℕ) (remove_failed : Bool) (role : ℕ)
        (outcome : Result (Unit {0})) (w : RoleWorld)
        → holds w.calls ≡ (before && not (contains q removed))
        → (remove_failed ≡ true → removed ≡ [])
        → Accounts before (
            after_add api guild later removed remove_failed role outcome
              (record w { calls = add_call member role outcome ∷ w.calls }))
    unfolding after_add replay
    after_add-Accounts before removed true role (ok tt) w h k =
        rw (holds-add role w.calls) (ground arith)
    after_add-Accounts before removed false role (ok tt) w h k =
        rw (holds-add role w.calls) (ground arith)
    after_add-Accounts before removed rf role (err forbidden) w h k =
        rw
          (maybe_emit-calls later role
            (record w { calls = add_call member role (err forbidden) ∷ w.calls }))
          (ground arith)
    after_add-Accounts before removed rf role (err e) w h k = tt

    after_remove_other-Accounts :
        (role other : ℕ) (outcome : Result (Unit {0})) (w : RoleWorld)
        → Accounts (holds w.calls) (
            after_remove_other api guild later member role other outcome
              (record w { calls = remove_call member other outcome ∷ w.calls }))
    unfolding after_remove_other add_target replay
    after_remove_other-Accounts role other (ok tt) w =
        let w' : RoleWorld = record w { calls = remove_call member other (ok tt) ∷ w.calls } in
        after_add-Accounts (holds w.calls) (other ∷ []) false role
          (api.add_roles w'.calls member role) w' (rw (holds-remove other w.calls) (ground arith))
          (λ e. cc)
    after_remove_other-Accounts role other (err forbidden) w =
        let w' : RoleWorld = record w {
          calls = remove_call member other (err forbidden) ∷ w.calls;
        } in
        after_add-Accounts (holds w.calls) [] true role (api.add_roles w'.calls member role) w'
          (ground arith) (λ e. refl)
    after_remove_other-Accounts role other (err e) w = tt

    swap_roles-Accounts :
        (forced : Bool) (role : ℕ) (other : Option ℕ) (w : RoleWorld)
        → Accounts (holds w.calls) (swap_roles api guild later forced member role other w)
    unfolding swap_roles after_remove_other add_target
    swap_roles-Accounts forced role none w =
        after_add-Accounts (holds w.calls) [] false role (api.add_roles w.calls member role) w
          (ground arith) (λ e. refl)
    swap_roles-Accounts true role (some other) w =
        after_add-Accounts (holds w.calls) [] true role (api.add_roles w.calls member role) w
          (ground arith) (λ e. refl)
    swap_roles-Accounts false role (some other) w =
        after_remove_other-Accounts role other (api.remove_roles w.calls member other) w

    unassign-Accounts :
        (role : ℕ) (outcome : Result (Unit {0})) (w : RoleWorld)
        → Accounts (holds w.calls) (
            after_unassign api guild later role outcome
              (record w { calls = remove_call member role outcome ∷ w.calls }))
    unfolding after_unassign replay
    unassign-Accounts role (ok tt) w = rw (holds-remove role w.calls) (ground arith)
    unassign-Accounts role (err forbidden) w =
        rw
          (maybe_emit-calls later role
            (record w { calls = remove_call member role (err forbidden) ∷ w.calls }))
          (ground arith)
    unassign-Accounts role (err e) w = tt

    assign_found-Accounts :
        (forced : Bool) (day : ℕ) (day_map : DayMap) (t : Target) (w : RoleWorld)
        → Accounts (holds w.calls) (assign_found api guild later forced member day day_map t w)
    unfolding assign_found
    assign_found-Accounts forced day day_map (missing reason) w = ground arith
    assign_found-Accounts forced day day_map (found role held) w =
        let swap = swap_roles-Accounts forced role (other_day_role day day_map held) w in
        elim (Bool-cases (contains role held)) [ inl e ↦ rw e (ground arith) | inr e ↦ rw e swap ]

    unassign_found-Accounts :
        (t : Target) (w : RoleWorld)
        → Accounts (holds w.calls) (unassign_found api guild later member t w)
    unfolding unassign_found
    unassign_found-Accounts (missing reason) w = ground arith
    unassign_found-Accounts (found role held) w =
        let take = unassign-Accounts role (api.remove_roles w.calls member role) w in
        elim (Bool-cases (contains role held)) [ inl e ↦ rw e take | inr e ↦ rw e (ground arith) ]

    -- Whatever Discord answers, when the call gives a result then the member holds a role
    -- afterwards exactly when the result lists it as added, or the member held it before and the
    -- result does not list it as removed.
    pub apply_day_role-accounts :
        (forced : Option String) (rows : List DayRoleMap) (assigns : Bool) (day : Option ℕ)
        (w : RoleWorld) (res : RoleSyncResult)
        → (apply_day_role api guild later forced rows member assigns day w).0 ≡ ok res
        → holds (apply_day_role api guild later forced rows member assigns day w).1.calls
          ≡ (contains q res.added || (holds w.calls && not (contains q res.removed)))
    unfolding apply_day_role handle_assign handle_unassign
    apply_day_role-accounts forced rows true none w res h = cc
    apply_day_role-accounts forced rows true (some day) w res h =
        let day_map = load_day_role_map guild.id rows in
        let (r, w') =
          handle_assign api guild later (is_forced forced member) member day day_map w in
        of_result (holds w.calls) res r w'
          (assign_found-Accounts (is_forced forced member) day day_map
            (find_target guild member (some day) day_map) w)
          h
    apply_day_role-accounts forced rows false day w res h =
        let day_map = load_day_role_map guild.id rows in
        let (r, w') = handle_unassign api guild later member day day_map w in
        of_result (holds w.calls) res r w'
          (unassign_found-Accounts (find_target guild member day day_map) w) h

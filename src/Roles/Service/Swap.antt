-- ===== src/Roles/Service/Swap.antt =====
-- What an assignment that was applied leaves: the target role, and no role of another day.
use rsl_mom_bot.Prelude.{
  ℕ, String, ◌≡◌, ◌≢◌, refl, Bool, true, false, not, ◌&&◌, ◌||◌, Option, none, some, List, [], ◌∷◌,
  contains, ap, sym, ◌∙◌, arith, Bool-cases, inl, inr, ◌⊎◌, All, In,
}
use rsl_mom_bot.Prelude.Exec.{Result, ok, err, forbidden}
use rsl_mom_bot.Prelude.Int.{ℤ}
use rsl_mom_bot.Roles.Models.{
  DayRoleMap, is_applied, RoleSyncResult, Guild, remove_call, RoleApi, RoleWorld, Reason,
  already_has_role,
}
use rsl_mom_bot.Roles.Service.{
  DayMap, load_day_role_map, role_of_day, other_day_role, Target, missing, found, find_target,
  after_add, add_target, after_remove_other, swap_roles, assign_found, handle_assign,
  apply_day_role, is_forced, skipped,
}
use rsl_mom_bot.Roles.Service.Outcome.{replay, holds, apply_day_role-accounts}

-- Every day of the map but `day` has the role b.
abbrev pub OthersHave : ℕ → ℕ → DayMap → Type 0
OthersHave day b day_map = All (λ (m : ℕ × ℕ). (m.0 ≡ day) ⊎ (m.1 ≡ b)) day_map

other_day_role-none :
    (day b : ℕ) (day_map : DayMap) (held : List ℕ)
    → OthersHave day b day_map
    → contains b held ≡ false
    → other_day_role day day_map held ≡ none
unfolding other_day_role
other_day_role-none day b [] held o h = refl
other_day_role-none day b ((d, r) ∷ rest) held o h =
    let ih = other_day_role-none day b rest held o.1 h in
    elim o.0 [ inl e ↦ rw e (ground arith) | inr e ↦ rw (e, h) (ground arith) ]

other_day_role-some :
    (day b e : ℕ) (day_map : DayMap) (held : List ℕ)
    → OthersHave day b day_map
    → In (e, b) day_map
    → e ≢ day
    → contains b held ≡ true
    → other_day_role day day_map held ≡ some b
unfolding other_day_role
other_day_role-some day b e [] held o i n h = absurd i
other_day_role-some day b e ((d, r) ∷ rest) held o i n h =
    let ih = other_day_role-some day b e rest held o.1 in
    elim i [
      | inl here ↦
          let d_is : e ≡ d = ap (λ (m : ℕ × ℕ). m.0) here in
          let r_is : b ≡ r = ap (λ (m : ℕ × ℕ). m.1) here in
          let held_r = rw r_is at h in ground arith
      | inr there ↦
          let found_later = ih there n h in
          elim o.0 [ inl same ↦ rw same (ground arith) | inr has ↦ rw (has, h) (ground arith) ]
    ]

find_target_found :
    (guild : Guild) (member : ℤ) (day : ℕ) (day_map : DayMap) (role : ℕ) (held : List ℕ)
    → find_target guild member (some day) day_map ≡ found role held
    → (role_of_day day day_map ≡ some role) × (guild.get_member member ≡ some held)
unfolding find_target
find_target_found guild member day day_map role held h = ground arith

-- The role that is taken away when the assignment goes through.
abbrev list_of : Option ℕ → List ℕ
list_of none = []
list_of (some a) = a ∷ []

after_swap :
    (a b : ℕ) (before_a before_b after_a after_b : Bool) (added removed : List ℕ) (other : Option ℕ)
    → after_a ≡ (contains a added || (before_a && not (contains a removed)))
    → after_b ≡ (contains b added || (before_b && not (contains b removed)))
    → added ≡ a ∷ []
    → removed ≡ list_of other
    → (before_b ≡ true → other ≡ some b)
    → a ≢ b
    → (after_a ≡ true) × (after_b ≡ false)
after_swap a b before_a true after_a after_b added removed other ha hb ad rm ob n =
    let gone = ob refl in rw (ha, hb, ad, rm, gone) (ground arith)
after_swap a b before_a false after_a after_b added removed other ha hb ad rm ob n =
    rw (ha, hb, ad) (ground arith)

some_inj : (xs ys : List ℕ) → some xs ≡ some ys → xs ≡ ys
some_inj xs ys h = cc

skipped_clash :
    (reason : Reason) (res : RoleSyncResult)
    → ok (skipped reason) ≡ ok res
    → res.status ≡ is_applied
    → ⊥
skipped_clash reason res h s = ground arith

module _ (api : RoleApi) (guild later : Guild) where
  after_add_applied :
      (removed : List ℕ) (remove_failed : Bool) (role : ℕ) (outcome : Result (Unit {0}))
      (w : RoleWorld) (res : RoleSyncResult)
      → (after_add api guild later removed remove_failed role outcome w).0 ≡ ok res
      → res.status ≡ is_applied
      → (res.added ≡ role ∷ []) × (res.removed ≡ removed) × (remove_failed ≡ false)
  unfolding after_add
  after_add_applied removed true role (ok tt) w res h s = ground arith
  after_add_applied removed false role (ok tt) w res h s = ground arith
  after_add_applied removed rf role (err forbidden) w res h s = ground arith
  after_add_applied removed rf role (err e) w res h s = cc

  swap_roles_applied :
      (forced : Bool) (member : ℤ) (role : ℕ) (other : Option ℕ) (w : RoleWorld)
      (res : RoleSyncResult)
      → (swap_roles api guild later forced member role other w).0 ≡ ok res
      → res.status ≡ is_applied
      → (res.added ≡ role ∷ []) × (res.removed ≡ list_of other)
  unfolding swap_roles after_remove_other add_target
  swap_roles_applied forced member role none w res h s =
      let (a, r, f) = after_add_applied [] false role _ _ res h s in (a, r)
  swap_roles_applied true member role (some other) w res h s =
      let (a, r, f) = after_add_applied [] true role _ _ res h s in cc
  swap_roles_applied false member role (some other) w res h s =
      step (api.remove_roles w.calls member other) h
    where
      step :
          (outcome : Result (Unit {0}))
          → (after_remove_other api guild later member role other outcome
              (record w { calls = remove_call member other outcome ∷ w.calls })).0
            ≡ ok res
          → (res.added ≡ role ∷ []) × (res.removed ≡ other ∷ [])
      step (ok tt) k =
          let (a, r, f) = after_add_applied (other ∷ []) false role _ _ res k s in (a, r)
      step (err forbidden) k = let (a, r, f) = after_add_applied [] true role _ _ res k s in cc
      step (err e) k = cc

  assign_found_applied :
      (forced : Bool) (member : ℤ) (day : ℕ) (day_map : DayMap) (t : Target) (w : RoleWorld)
      (res : RoleSyncResult)
      → (assign_found api guild later forced member day day_map t w).0 ≡ ok res
      → res.status ≡ is_applied
      → (role : ℕ) × (held : List ℕ) × (t ≡ found role held)
        × (res.added ≡ role ∷ [])
        × (res.removed ≡ list_of (other_day_role day day_map held))
  unfolding assign_found
  assign_found_applied forced member day day_map (missing reason) w res h s = ground arith
  assign_found_applied forced member day day_map (found role held) w res h s =
      elim (Bool-cases (contains role held)) [
        | inl e ↦ absurd (skipped_clash already_has_role res (rw e at h) s)
        | inr e ↦
            let (a, r) =
              swap_roles_applied forced member role (other_day_role day day_map held) w res
                (rw e at h) s in
            (role, held, refl, a, r)
      ]

  -- Let the map give the day the role a, and every other day it has the role b. If the guild's
  -- cache shows the roles that the calls so far left the member, and an assignment of the day
  -- returns `applied`, then afterwards the member holds a and does not hold b.
  pub applied_assign_swaps :
      (forced : Option String) (rows : List DayRoleMap) (member : ℤ) (start : List ℕ)
      (day e a b : ℕ) (w : RoleWorld) (res : RoleSyncResult)
      → role_of_day day (load_day_role_map guild.id rows) ≡ some a
      → OthersHave day b (load_day_role_map guild.id rows)
      → In (e, b) (load_day_role_map guild.id rows)
      → e ≢ day
      → a ≢ b
      → guild.get_member member ≡ some (replay member w.calls start)
      → (apply_day_role api guild later forced rows member true (some day) w).0 ≡ ok res
      → res.status ≡ is_applied
      → let w' = (apply_day_role api guild later forced rows member true (some day) w).1 in
        (holds member start a w'.calls ≡ true) × (holds member start b w'.calls ≡ false)
  unfolding apply_day_role handle_assign
  applied_assign_swaps forced rows member start day e a b w res target others other distinct apart
        cached h s =
      let day_map = load_day_role_map guild.id rows in
      let account_a =
        apply_day_role-accounts member start a api guild later forced rows true (some day) w res
          h in
      let account_b =
        apply_day_role-accounts member start b api guild later forced rows true (some day) w res
          h in
      let (role, held, t, add, rem) =
        assign_found_applied (is_forced forced member) member day day_map
          (find_target guild member (some day) day_map) w res h s in
      let (is_role, is_held) = find_target_found guild member day day_map role held t in
      let is_a : role ≡ a = cc in
      let is_now : held ≡ replay member w.calls start = some_inj _ _ (sym is_held ∙ cached) in
      after_swap a b (holds member start a w.calls) (holds member start b w.calls) _ _ res.added
        res.removed (other_day_role day day_map held) account_a account_b (rw is_a at add) rem
        (λ m. other_day_role-some day b e day_map held others other distinct (rw is_now m)) apart

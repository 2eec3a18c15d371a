-- ===== src/Tournament/Valid.antt =====
-- The participants of a tournament under its operations.
use tournament_hub.Common.{
  ℕ, ◌≤◌, ◌≡◌, refl, subst, inl, inr, Bool, false, List, [], ◌∷◌, arith, ==_iff, Bool-cases, Option,
  Option-cases, none, find, count_if, count_if-append, All, All-append, Result-cases, ok,
}
use tournament_hub.Tournament.{
  ParticipantRole, unknown, staff, Participant, TournamentAggregate, TournamentDetails, is_player,
  is_participant, change_first, with_roles, merge_roles, register, without_first, unregister,
  grant_staff, granted, revoke_staff, revoked, registered, participant, describe, close, reopen,
  settle,
}
use tournament_hub.Tournament.Roles.{has_role, IsRoles, merge_roles-IsRoles, revoked-IsRoles}

-- No player takes part twice, and the roles of everyone are in order.
pub record IsValid (participants : List Participant) : Type 0 where
  pub once : (player : ℕ) → count_if (is_player player) participants ≤ 1
  pub roles : All (λ (p : Participant). IsRoles p.roles) participants

change_first-once :
    (test : Participant → Bool) (f : Participant → Participant) (player : ℕ) (l : List Participant)
    → ((p : Participant) → (f p).player ≡ p.player)
    → count_if (is_player player) (change_first test f l) ≡ count_if (is_player player) l
unfolding change_first
change_first-once test f player [] same = refl
change_first-once test f player (p ∷ l) same =
    ground (arith, change_first-once test f player l same, same p)

change_first-roles :
    (test : Participant → Bool) (f : Participant → Participant) (l : List Participant)
    → ((p : Participant) → IsRoles p.roles → IsRoles (f p).roles)
    → All (λ (p : Participant). IsRoles p.roles) l
    → All (λ (p : Participant). IsRoles p.roles) (change_first test f l)
unfolding change_first
change_first-roles test f [] g h = tt
change_first-roles test f (p ∷ l) g h = elim (Bool-cases (test p)) [
  | inl e ↦ rw (change_first, e) (g p h.0, h.1)
  | inr e ↦ rw (change_first, e) (h.0, change_first-roles test f l g h.1)
]

change_first-IsValid :
    (test : Participant → Bool) (f : Participant → Participant) (l : List Participant)
    → ((p : Participant) → (f p).player ≡ p.player)
    → ((p : Participant) → IsRoles p.roles → IsRoles (f p).roles)
    → IsValid l
    → IsValid (change_first test f l)
change_first-IsValid test f l same g v = record {
  once = λ player. omega (arith, v.once player, change_first-once test f player l same);
  roles = change_first-roles test f l g v.roles;
}

without_first-IsValid :
    (test : Participant → Bool) (l : List Participant) → IsValid l → IsValid (without_first test l)
unfolding without_first
without_first-IsValid test l v = record {
  once = λ player. omega (arith, v.once player, fewer player l);
  roles = each l v.roles;
}
  where
    fewer :
        (player : ℕ) (l : List Participant)
        → count_if (is_player player) (without_first test l) ≤ count_if (is_player player) l
    fewer player [] = omega arith
    fewer player (p ∷ l) = ground (arith, fewer player l)

    each :
        (l : List Participant)
        → All (λ (p : Participant). IsRoles p.roles) l
        → All (λ (p : Participant). IsRoles p.roles) (without_first test l)
    each [] h = tt
    each (p ∷ l) h = elim (Bool-cases (test p)) [
      | inl e ↦ rw (without_first, e) h.1
      | inr e ↦ rw (without_first, e) (h.0, each l h.1)
    ]

-- The successful operations; `register` with roles that do not name `unknown`.
pub data TournamentStep (a : TournamentAggregate) (a' : TournamentAggregate) : Type 0 where
  did_describe : (d : TournamentDetails) → describe a d ≡ a' → TournamentStep a a'
  did_close : (now : ℕ) (b : Bool) → close a now ≡ (a', b) → TournamentStep a a'
  did_reopen : (b : Bool) → reopen a ≡ (a', b) → TournamentStep a a'
  did_register :
      (player : ℕ) (roles : List ParticipantRole)
      → has_role unknown roles ≡ false
      → register a player roles ≡ a'
      → TournamentStep a a'
  did_unregister : (id : ℕ) → unregister a id ≡ ok a' → TournamentStep a a'
  did_grant : (id : ℕ) (account : Option ℕ) → grant_staff a id account ≡ ok a' → TournamentStep a a'
  did_revoke : (id : ℕ) → revoke_staff a id ≡ ok a' → TournamentStep a a'
  did_settle : settle a ≡ a' → TournamentStep a a'

count_if-find :
    (player : ℕ) (l : List Participant)
    → find (is_player player) l ≡ none
    → count_if (is_player player) l ≡ 0
count_if-find player [] h = refl
count_if-find player (p ∷ l) h = ground (arith, h, count_if-find player l)

register-IsValid :
    (a : TournamentAggregate) (player : ℕ) (roles : List ParticipantRole)
    → has_role unknown roles ≡ false
    → IsValid a.tournament.participants
    → IsValid (register a player roles).tournament.participants
unfolding register
register-IsValid a player roles h v =
    elim (Option-cases (find (is_player player) a.tournament.participants)) [
      | inr (p, e) ↦
          rw (register, e)
            (change_first-IsValid (is_player player) (with_roles (λ old. merge_roles old roles))
              a.tournament.participants (λ p. refl) (λ p _. merge_roles-IsRoles p.roles roles h) v)
      | inl e ↦
          let p : Participant = record {
            id = none;
            player = player;
            account = none;
            roles = merge_roles [] roles;
            status = registered;
          } in
          let absent = count_if-find player a.tournament.participants e in
          rw (register, e)
            (record {
              once = λ x. ground (
                arith,
                v.once x,
                absent,
                count_if-append (is_player x) a.tournament.participants (p ∷ []),
                ==_iff player x,
              );
              roles =
                  All-append (λ (q : Participant). IsRoles q.roles) a.tournament.participants
                    (p ∷ []) v.roles (merge_roles-IsRoles [] roles h, tt);
            })
    ]

-- Every operation keeps the participants in order: no player takes part twice, everyone has a role, no
-- role twice, and `unknown` only alone. `register` does so for roles that do not name `unknown`.
pub TournamentStep-IsValid :
    (a a' : TournamentAggregate)
    → TournamentStep a a'
    → IsValid a.tournament.participants
    → IsValid a'.tournament.participants
unfolding describe close reopen settle unregister grant_staff revoke_staff
TournamentStep-IsValid a a' (did_describe d e) v =
    subst (λ (b : TournamentAggregate). IsValid b.tournament.participants) e v
TournamentStep-IsValid a a' (did_close now b e) v =
    let kept : a.tournament.participants ≡ a'.tournament.participants = ground (arith, e) in
    subst IsValid kept v
TournamentStep-IsValid a a' (did_reopen b e) v =
    let kept : a.tournament.participants ≡ a'.tournament.participants = ground (arith, e) in
    subst IsValid kept v
TournamentStep-IsValid a a' (did_register player roles h e) v =
    subst (λ (b : TournamentAggregate). IsValid b.tournament.participants) e
      (register-IsValid a player roles h v)
TournamentStep-IsValid a a' (did_unregister id e) v = elim (Result-cases (participant a id)) [
  | inl (x, k) ↦ absurd (ground (arith, e, k))
  | inr (p, k) ↦
      let kept : without_first (is_participant id) a.tournament.participants
          ≡ a'.tournament.participants =
        ground (arith, e, k) in
      subst IsValid kept (without_first-IsValid (is_participant id) a.tournament.participants v)
]
TournamentStep-IsValid a a' (did_grant id account e) v = elim (Result-cases (participant a id)) [
  | inl (x, k) ↦ absurd (ground (arith, e, k))
  | inr (p, k) ↦
      let kept : change_first (is_participant id) (granted account) a.tournament.participants
          ≡ a'.tournament.participants =
        ground (arith, e, k) in
      subst IsValid kept (
        change_first-IsValid (is_participant id) (granted account) a.tournament.participants
          (λ q. refl) (λ q _. merge_roles-IsRoles q.roles (staff ∷ []) refl) v)
]
TournamentStep-IsValid a a' (did_revoke id e) v = elim (Result-cases (participant a id)) [
  | inl (x, k) ↦ absurd (ground (arith, e, k))
  | inr (p, k) ↦
      let kept : change_first (is_participant id) (with_roles revoked) a.tournament.participants
          ≡ a'.tournament.participants =
        ground (arith, e, k) in
      subst IsValid kept (
        change_first-IsValid (is_participant id) (with_roles revoked) a.tournament.participants
          (λ q. refl) (λ q r. revoked-IsRoles q.roles r) v)
]
TournamentStep-IsValid a a' (did_settle e) v =
    subst (λ (b : TournamentAggregate). IsValid b.tournament.participants) e v

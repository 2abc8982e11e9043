-- ===== src/Server/Invitations.antt =====
-- main.go and enrollment_handler.go: what a request to any of the routes does to one invitation.
use rd_testing_project.Base.{
  ◌<◌, ◌≡◌, ◌≢◌, ◌⊎◌, ◌∙◌, refl, ap, sym, subst, inl, inr, String, none, ◌==◌, nat_eq, string_eq,
  pos_part, int_half, Bool-cases, arith, ℤ,
}
use rd_testing_project.Base.Maps.{get, put, get-put_other, get-update, get-delete}
use rd_testing_project.Models.{Uuid}
use rd_testing_project.Store.{MemoryStore, Result-cases}
use rd_testing_project.Store.Invitations.{use_once}
use rd_testing_project.Store.Invitations.Quota.{IsSound, by_hash_found, put-IsSound, delete-IsSound}
use rd_testing_project.Http.{Env, Request}
use rd_testing_project.Handlers.Enrollment.Admission.{
  refused, stranded, admitted, handshake-Outcome,
}
use rd_testing_project.Handlers.Enrollment.Quota.{
  Attempt, answer, looked_up, admits, handshake-IsSound,
}
use rd_testing_project.Server.{Incoming}
use rd_testing_project.Server.Effects.{
  InvitationEffect, unchanged, issues, revokes, redeems, handshake_pattern,
}

-- The number that a body asks for fits Go's int.
abbrev pub IsInRange : Incoming → Type 0
IsInRange i = pos_part i.payload.invitation.value.max_uses < int_half

pub InvitationEffect-IsSound :
    {env : Env} {limit : ℤ} {pattern : String} {r : Request} {m m' : MemoryStore}
    → InvitationEffect env limit pattern r m m'
    → pos_part limit < int_half
    → IsSound m.invitations
    → IsSound m'.invitations
InvitationEffect-IsSound (unchanged e) fits s = rw e s
InvitationEffect-IsSound {m = m} (issues inv filed within e) fits s =
    subst IsSound (sym (e ∙ ap (λ id. put id inv m.invitations) (sym filed)))
      (put-IsSound m.invitations inv s (within fits))
InvitationEffect-IsSound {m = m} (revokes id e) fits s = rw e (delete-IsSound m.invitations id s)
InvitationEffect-IsSound {env} {r = r} {m} (redeems _ body e) fits s =
    rw e (handshake-IsSound (record { env = env; request = r; body = body }) m s)

-- A sound store without the invitation lets nobody in under it.
pub admits_gone :
    (id : Uuid) (a : Attempt) (m : MemoryStore)
    → IsSound m.invitations
    → get id m.invitations ≡ none
    → admits id a m ≡ 0
unfolding admits
admits_gone id a m s gone = elim (Result-cases (looked_up a m)) [
  | inr (x, e) ↦ ground arith
  | inl (inv, e) ↦
      let (_, filed, _, _) = by_hash_found _ _ m inv s e in
      elim (Bool-cases (inv.id == id)) [
        | inl same ↦ absurd (ground arith)
        | inr other ↦ ground arith
      ]
]

pub answer_gone :
    (id : Uuid) (a : Attempt) (m : MemoryStore)
    → get id m.invitations ≡ none
    → get id (answer a m).1.invitations ≡ none
answer_gone id a m gone = elim (handshake-Outcome a.env a.request a.body m) [
  | refused _ same ↦ rw same gone
  | stranded inv _ _ same ↦ rw same (ground (arith, get-update id inv.id use_once m.invitations))
  | admitted inv _ _ _ _ _ _ same _ _ ↦
      rw same (ground (arith, get-update id inv.id use_once m.invitations))
]

-- What a request other than a handshake may do to an invitation.
pub InvitationEffect-get :
    {env : Env} {limit : ℤ} {pattern : String} {r : Request} (id : Uuid) (m m' : MemoryStore)
    → InvitationEffect env limit pattern r m m'
    → pattern ≢ handshake_pattern
    → env.new_id 0 ≢ id
    → (get id m'.invitations ≡ get id m.invitations) ⊎ (get id m'.invitations ≡ none)
InvitationEffect-get id m m' (unchanged e) other fresh = inl (rw e refl)
InvitationEffect-get {env} id m m' (issues inv _ _ e) other fresh =
    inl (rw e (get-put_other id (env.new_id 0) inv m.invitations fresh))
InvitationEffect-get id m m' (revokes j e) other fresh = elim (Bool-cases (j == id)) [
  | inl hit ↦ inr (rw e (ground (arith, get-delete id j m.invitations)))
  | inr miss ↦ inl (rw e (ground (arith, get-delete id j m.invitations)))
]
InvitationEffect-get id m m' (redeems same _ _) other fresh = absurd (other same)

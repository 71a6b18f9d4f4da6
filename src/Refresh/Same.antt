-- ===== src/Refresh/Same.antt =====
-- The comparison of states of apps/worker/src/vnu/vnu-refresh-control.ts decides equality, so a
-- transition that reports no change leaves in the storage the very state that it computed.
use hyeboard.Prelude.{
  ◌≡◌, refl, ap, Bool, true, Option, none, some, [], ◌∷◌, arith, str_eq_iff, ◌==◌, ==_iff,
  Bool-cases, inl, inr, if_cases,
}
use hyeboard.Refresh.State.{expiry, linked, VnuRefreshControlState}
use hyeboard.Refresh.Valid.{
  option_eq, dict_eq, pair_eq, lease_eq, window_eq, tombstone_eq, state_eq, same_vnu_refresh_state,
}
use hyeboard.Refresh.Transitions.{Reply, changed}
use hyeboard.Refresh.Store.{Storage, commit, is_quiescent_vnu_refresh_state}
use hyeboard.Refresh.Cases.{same_pair-eq}

abbrev Sound : {A : Type 0} → (A → A → Bool) → Type 0
Sound {A} f = (a b : A) → f a b ≡ true → a ≡ b

option_eq-Sound : {A : Type 0} (f : A → A → Bool) → Sound f → Sound (option_eq f)
option_eq-Sound f s none none h = refl
option_eq-Sound f s none (some b) h = cc
option_eq-Sound f s (some a) none h = cc
option_eq-Sound f s (some a) (some b) h = ap some (s a b h)

dict_eq-Sound : {A : Type 0} (f : A → A → Bool) → Sound f → Sound (dict_eq f)
unfolding dict_eq
dict_eq-Sound f s [] [] h = refl
dict_eq-Sound f s [] (e ∷ n) h = cc
dict_eq-Sound f s (e ∷ m) [] h = cc
dict_eq-Sound f s ((j, a) ∷ m) ((k, b) ∷ n) h =
    ground (arith, str_eq_iff j k, s a b, dict_eq-Sound f s m n)

pair_eq-Sound : Sound pair_eq
unfolding pair_eq
pair_eq-Sound p q h = ground (arith, same_pair-eq (some p) q h)

lease_eq-Sound : Sound lease_eq
unfolding lease_eq
lease_eq-Sound l m h = ground (arith, pair_eq-Sound l.pair m.pair)

window_eq-Sound : Sound window_eq
unfolding window_eq
window_eq-Sound v w h = ground arith

tombstone_eq-Sound : Sound tombstone_eq
unfolding tombstone_eq
tombstone_eq-Sound (expiry m) (expiry n) h = ground arith
tombstone_eq-Sound (expiry m) (linked b f h' t) h = cc
tombstone_eq-Sound (linked a e g s) (expiry n) h = cc
tombstone_eq-Sound (linked a e g s) (linked b f h' t) h =
    ground (arith, str_eq_iff a b, option_eq-Sound pair_eq pair_eq-Sound s t)

expiry_eq-Sound : Sound ◌==◌
expiry_eq-Sound a b h = (==_iff a b).0 h

pub same_vnu_refresh_state-eq :
    (o : Option VnuRefreshControlState) (t : VnuRefreshControlState)
    → same_vnu_refresh_state o t ≡ true
    → o ≡ some t
unfolding same_vnu_refresh_state state_eq
same_vnu_refresh_state-eq none t h = cc
same_vnu_refresh_state-eq (some s) t h = ground (
  arith,
  option_eq-Sound pair_eq pair_eq-Sound s.active t.active,
  option_eq-Sound lease_eq lease_eq-Sound s.lease t.lease,
  dict_eq-Sound ◌==◌ expiry_eq-Sound s.revoked_access t.revoked_access,
  dict_eq-Sound tombstone_eq tombstone_eq-Sound s.revoked_grants t.revoked_grants,
  window_eq-Sound s.window t.window,
  option_eq-Sound window_eq window_eq-Sound s.activation_window t.activation_window,
)

-- After a transition that went on to `s` the storage has `s`, or nothing where `s` is quiescent.
pub commit-changed :
    (P : Option VnuRefreshControlState → Type 0) (storage : Storage) (s : VnuRefreshControlState)
    (r : Reply)
    → P (some s)
    → (is_quiescent_vnu_refresh_state s ≡ true → P none)
    → P (commit storage (changed storage.state s r)).state
unfolding commit changed
commit-changed P storage s r put deleted =
    elim (Bool-cases (same_vnu_refresh_state storage.state s)) [
      | inl same ↦ rw (same, commit, same_vnu_refresh_state-eq storage.state s same) put
      | inr other ↦
          rw (other, commit) (if_cases P (is_quiescent_vnu_refresh_state s) deleted (λ _. put))
    ]

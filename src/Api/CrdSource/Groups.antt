-- ===== src/Api/CrdSource/Groups.antt =====
-- internal/api/readmodel/crdsource: the maps of slices that the topology is built from.
use mathlib.Core.List.{append-nil, append_assoc}
use keleustes.Base.{
  ◌≡◌, refl, ap, sym, ◌∙◌, inl, inr, Bool, true, false, Bool-cases, Str, ◌==◌, ==_iff, arith,
  if◌then◌else◌, List, [], ◌∷◌, ◌++◌, keep, IsWeakOrder, <?_asym, <?_neg_trans,
}
use keleustes.Api.Resources
use keleustes.Api.Resources.{DeploymentTarget}
use keleustes.Api.CrdSource.Topology.{environment_less, group_of, add_to_group, group_by}

abbrev Groups : Type 0
Groups = List (Str × List DeploymentTarget)

group_of-add :
    (k j : Str) (t : DeploymentTarget) (groups : Groups)
    → group_of k (add_to_group j t groups)
      ≡ (if j == k then group_of k groups ++ t ∷ [] else group_of k groups)
unfolding group_of add_to_group
group_of-add k j t [] = refl
group_of-add k j t ((i, ts) ∷ groups) =
    ground (arith, ==_iff j k, ==_iff i k, ==_iff i j, group_of-add k j t groups)

abbrev pub in_group : (DeploymentTarget → Str) → Str → DeploymentTarget → Bool
in_group key k t = key t == k

group_of-group_by :
    (key : DeploymentTarget → Str) (k : Str) (groups : Groups) (ts : List DeploymentTarget)
    → group_of k (group_by key groups ts) ≡ group_of k groups ++ keep (in_group key k) ts
unfolding group_by
group_of-group_by key k groups [] = sym (append-nil (group_of k groups))
group_of-group_by key k groups (t ∷ ts) = elim (Bool-cases (key t == k)) [
  | inl e ↦
      let step : group_of k (add_to_group (key t) t groups) ≡ group_of k groups ++ t ∷ [] =
        group_of-add k (key t) t groups ∙ rw e in
      rw e (
        group_of-group_by key k (add_to_group (key t) t groups) ts
        ∙ ap (λ g. g ++ keep (in_group key k) ts) step
        ∙ append_assoc (group_of k groups) (t ∷ []) (keep (in_group key k) ts))
  | inr e ↦
      let step : group_of k (add_to_group (key t) t groups) ≡ group_of k groups =
        group_of-add k (key t) t groups ∙ rw e in
      rw e (
        group_of-group_by key k (add_to_group (key t) t groups) ts
        ∙ ap (λ g. g ++ keep (in_group key k) ts) step)
]

pub grouped :
    (key : DeploymentTarget → Str) (k : Str) (ts : List DeploymentTarget)
    → group_of k (group_by key [] ts) ≡ keep (in_group key k) ts
unfolding group_of
grouped key k ts = group_of-group_by key k [] ts

environment_asym :
    (a b : Resources.Environment) → environment_less a b ≡ true → environment_less b a ≡ false
unfolding environment_less
environment_asym a b h = ground (arith, <?_asym a.meta.name b.meta.name)

environment_neg_trans :
    (a b c : Resources.Environment)
    → environment_less b a ≡ false
    → environment_less c b ≡ false
    → environment_less c a ≡ false
unfolding environment_less
environment_neg_trans a b c h k = ground (arith, <?_neg_trans a.meta.name b.meta.name c.meta.name)

pub environment_order : IsWeakOrder environment_less
environment_order = record { asym = environment_asym; trans = environment_neg_trans }

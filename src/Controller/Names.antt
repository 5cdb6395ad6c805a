-- ===== src/Controller/Names.antt =====
-- internal/controller and cmd/manager: the names of the controllers, which a manager takes only once
-- each, against the kinds of internal/cli/kinds.go.
use keleustes.Base.{
  ◌≡◌, ◌↔◌, refl, sym, ap, ◌∙◌, Option, some, Str, ◌==◌, first, In, inl, inr, to_lower,
}
use keleustes.Base.Result.{ok}
use keleustes.Cli.Kinds.{ResolvedKind, resolve_kind, keleustes_kinds}
use keleustes.Controller.Kinds.{
  Kind, reconciler, controllers, application_kind, source_kind, release_kind, environment_kind,
  cell_kind, deployment_target_kind, deployment_kind, promotion_kind, promotion_policy_kind,
  approval_kind, freeze_window_kind, sync_plan_kind, sync_run_kind, health_check_kind,
  notifier_kind,
}

-- The first controller with the name.
kind_named : Str → Option Kind
kind_named name = first (λ k. (reconciler k).controller == name) controllers

kind_named-controller : (k : Kind) → kind_named (reconciler k).controller ≡ some k
unfolding kind_named ◌==◌
kind_named-controller application_kind = refl
kind_named-controller source_kind = refl
kind_named-controller release_kind = refl
kind_named-controller environment_kind = refl
kind_named-controller cell_kind = refl
kind_named-controller deployment_target_kind = refl
kind_named-controller deployment_kind = refl
kind_named-controller promotion_kind = refl
kind_named-controller promotion_policy_kind = refl
kind_named-controller approval_kind = refl
kind_named-controller freeze_window_kind = refl
kind_named-controller sync_plan_kind = refl
kind_named-controller sync_run_kind = refl
kind_named-controller health_check_kind = refl
kind_named-controller notifier_kind = refl

some-injective : {k j : Kind} → some k ≡ some j → k ≡ j
some-injective h = cc

is_set_up : (k : Kind) → In k controllers
is_set_up application_kind = inl refl
is_set_up source_kind = inr (inl refl)
is_set_up release_kind = inr (inr (inl refl))
is_set_up environment_kind = inr (inr (inr (inl refl)))
is_set_up cell_kind = inr (inr (inr (inr (inl refl))))
is_set_up deployment_target_kind = inr (inr (inr (inr (inr (inl refl)))))
is_set_up deployment_kind = inr (inr (inr (inr (inr (inr (inl refl))))))
is_set_up promotion_kind = inr (inr (inr (inr (inr (inr (inr (inl refl)))))))
is_set_up promotion_policy_kind = inr (inr (inr (inr (inr (inr (inr (inr (inl refl))))))))
is_set_up approval_kind = inr (inr (inr (inr (inr (inr (inr (inr (inr (inl refl)))))))))
is_set_up freeze_window_kind = inr (inr (inr (inr (inr (inr (inr (inr (inr (inr (inl refl))))))))))
is_set_up sync_plan_kind =
    inr (inr (inr (inr (inr (inr (inr (inr (inr (inr (inr (inl refl)))))))))))
is_set_up sync_run_kind =
    inr (inr (inr (inr (inr (inr (inr (inr (inr (inr (inr (inr (inl refl))))))))))))
is_set_up health_check_kind =
    inr (inr (inr (inr (inr (inr (inr (inr (inr (inr (inr (inr (inr (inl refl)))))))))))))
is_set_up notifier_kind =
    inr (inr (inr (inr (inr (inr (inr (inr (inr (inr (inr (inr (inr (inr (inl refl))))))))))))))

known : (k : Kind) → (r : ResolvedKind) × (resolve_kind (reconciler k).controller ≡ ok r)
unfolding resolve_kind ◌==◌ to_lower keleustes_kinds
known application_kind = (_, refl)
known source_kind = (_, refl)
known release_kind = (_, refl)
known environment_kind = (_, refl)
known cell_kind = (_, refl)
known deployment_target_kind = (_, refl)
known deployment_kind = (_, refl)
known promotion_kind = (_, refl)
known promotion_policy_kind = (_, refl)
known approval_kind = (_, refl)
known freeze_window_kind = (_, refl)
known sync_plan_kind = (_, refl)
known sync_run_kind = (_, refl)
known health_check_kind = (_, refl)
known notifier_kind = (_, refl)

-- The manager sets up a controller of every kind, no two of one name, and the command line knows
-- every controller's name as a name of a kind.
pub controllers_named :
    (k j : Kind)
    → In k controllers
      × (((reconciler k).controller ≡ (reconciler j).controller) ↔ (k ≡ j))
      × ((r : ResolvedKind) × (resolve_kind (reconciler k).controller ≡ ok r))
controllers_named k j = (
  is_set_up k,
  (
    λ e. some-injective (sym (kind_named-controller k) ∙ ap kind_named e ∙ kind_named-controller j),
    λ e. ap (λ i. (reconciler i).controller) e,
  ),
  known k,
)

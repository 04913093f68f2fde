-- ===== src/Node/Laws.antt =====
-- What a node keeps over a reload, and what its placeholders become.
use rulego.Prelude.{
  String, ◌≡◌, refl, ◌⊎◌, inl, inr, Bool, [], ◌∷◌, ◌==◌, string_eq, nat_key, Bool-cases,
}
use rulego.Prelude.Dict.{Map, get}
use mathlib.Core.Option
use rulego.Result.{Result, ok, err, Result-cases}
use rulego.Dsl.{Configuration}
use rulego.Node.{RuleNodeCtx, replace_global, process_global_placeholders, get_node_id, reload_self}

-- Every key of a configuration keeps its place: its value is the old one, with the placeholders of the
-- global properties replaced where it is a text, and no key is added.
pub get-process_global_placeholders :
    (properties : Map String String) (configuration : Configuration) (key : String)
    → get key (process_global_placeholders properties configuration)
      ≡ Option.map (replace_global properties) (get key configuration)
unfolding process_global_placeholders get
get-process_global_placeholders properties [] key = refl
get-process_global_placeholders properties ((k, value) ∷ rest) key = elim (Bool-cases (k == key)) [
  | inl same ↦ rw same refl
  | inr other ↦ rw other (get-process_global_placeholders properties rest key)
]

-- A reload of a node keeps its identifier. If the text cannot be decoded, the error is returned and the
-- node stays as it is; if it can, the old component is destroyed and the new one takes its place.
pub reload_self_outcomes_of_node :
    {C : Type 0} (decode : String → Result (RuleNodeCtx C)) (rn : RuleNodeCtx C) (def : String)
    → let r = reload_self decode rn def in
      (get_node_id r.ctx ≡ get_node_id rn)
      × (((e : String) × (decode def ≡ err e)
            × (r.error ≡ err e)
            × (r.ctx ≡ rn)
            × (r.destroyed ≡ Bool.false))
          ⊎ ((new : RuleNodeCtx C) × (decode def ≡ ok new)
              × (r.error ≡ ok tt)
              × (r.ctx.component ≡ new.component)
              × (r.destroyed ≡ Bool.true)))
unfolding reload_self get_node_id
reload_self_outcomes_of_node decode rn def = elim (Result-cases (decode def)) [
  | inr (e, bad) ↦ rw (bad, reload_self) (refl, inl (e, refl, refl, refl, refl))
  | inl (new, good) ↦ rw (good, reload_self) (refl, inr (new, refl, refl, refl, refl))
]

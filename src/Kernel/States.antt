-- ===== src/Kernel/States.antt =====
-- Reading a module's state after a write of the map.
use titanops.Common.{
  ◌≡◌, ◌≢◌, refl, ◌∙◌, ap, String, Bool, true, false, Option, none, some, arith, str_eq, eq_iff,
  if◌then◌else◌,
}
use titanops.Common.Dict.{lookup, lookup-insert}
use titanops.Kernel.Types.{ModuleState, ModuleEntry, RuntimeKernel}
use titanops.Kernel.Modules.{put}

abbrev pub state_in : Option ModuleEntry → Option ModuleState
state_in none = none
state_in (some entry) = some entry.state

abbrev pub state_of : String → RuntimeKernel → Option ModuleState
state_of id k = state_in (lookup id k.modules)

pub state_of-put :
    (id j : String) (entry : ModuleEntry) (k : RuntimeKernel)
    → state_of j (put id entry k) ≡ (if str_eq id j then some entry.state else state_of j k)
state_of-put id j entry k = ap state_in (lookup-insert id j entry k.modules) ∙ push_in (str_eq id j)
  where
    push_in :
        (b : Bool)
        → state_in (if b then some entry else lookup j k.modules)
          ≡ (if b then some entry.state else state_in (lookup j k.modules))
    push_in true = refl
    push_in false = refl

pub state_of-put_self :
    (id : String) (entry : ModuleEntry) (k : RuntimeKernel)
    → state_of id (put id entry k) ≡ some entry.state
state_of-put_self id entry k = let e = state_of-put id id entry k in ground (arith, eq_iff id id, e)

pub state_of-put_ne :
    (id j : String) (entry : ModuleEntry) (k : RuntimeKernel)
    → id ≢ j
    → state_of j (put id entry k) ≡ state_of j k
state_of-put_ne id j entry k ne =
    let e = state_of-put id j entry k in ground (arith, eq_iff id j, e)

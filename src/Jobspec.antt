-- ===== src/Jobspec.antt =====
-- pkg/jobspec/jobspec.go: the resources that the containers of a pod ask for. The integer value of a
-- Kubernetes quantity is taken from the API, and so a field of the container.
pub mod Sums
use fluxqueue.Base.{
  ℕ, zero, ◌+◌, ◌-◌, ◌%◌, ◌^◌, ltb, Bool, true, false, Option, none, some, List, [], ◌∷◌,
  if◌then◌else◌,
}
use fluxqueue.Base.Int.{ℤ, pos, negsuc}
use fluxqueue.Base.Str.{Str}

-- An integer modulo 2 ^ w.
unfoldable pub residue : ℕ → ℤ → ℕ
residue w (pos n) = n % 2 ^ w
residue w (negsuc n) = 2 ^ w - 1 - n % 2 ^ w

-- The integer of w bits with a residue.
unfoldable pub signed : ℕ → ℕ → ℤ
signed w r = if ltb r (2 ^ (w - 1)) then pos r else negsuc (2 ^ w - 1 - r)

-- The sum in integers of w bits.
unfoldable pub add_int : ℕ → ℤ → ℤ → ℤ
unfolding residue signed
add_int w a b = signed w ((residue w a + residue w b) % 2 ^ w)

-- int32(x)
unfoldable pub int32 : ℤ → ℤ
unfolding residue signed
int32 a = signed 32 (residue 32 a)

-- The requests of a container, and its limit of GPUs.
pub record Container : Type 0 where
  pub cpu : ℤ
  pub memory : ℤ
  pub storage : ℤ
  pub gpu : Option ℤ

pub record Resources : Type 0 where
  pub cpu : ℤ
  pub memory : ℤ
  pub gpu : ℤ
  pub storage : ℤ
  pub labels : List Str

abbrev add_gpu : ℤ → Option ℤ → ℤ
add_gpu total none = total
add_gpu total (some gpus) = add_int 64 total gpus

unfoldable pub add_container : Resources → Container → Resources
unfolding add_int int32
add_container r c = record {
  cpu = add_int 32 r.cpu (int32 c.cpu);
  memory = add_int 64 r.memory c.memory;
  gpu = add_gpu r.gpu c.gpu;
  storage = add_int 64 r.storage c.storage;
  labels = r.labels;
}

unfoldable pub add_containers : Resources → List Container → Resources
unfolding add_container
add_containers r [] = r
add_containers r (c ∷ cs) = add_containers (add_container r c) cs

abbrev one_if_zero : ℤ → ℤ
one_if_zero (pos zero) = pos 1
one_if_zero z = z

unfoldable pub generate_pod_resources : List Container → Resources
unfolding add_containers
generate_pod_resources containers =
    let r =
      add_containers
        (record { cpu = pos 0; memory = pos 0; gpu = pos 0; storage = pos 0; labels = [] })
        containers in
    record r { cpu = one_if_zero r.cpu }

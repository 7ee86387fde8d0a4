-- ===== src/Jobspec/Sums.antt =====
-- The sums of `GeneratePodResources`, where they fit into their integers.
use fluxqueue.Base.{ℕ, ◌+◌, ◌^◌, ◌<◌, ◌≡◌, refl, List, [], ◌∷◌, arith, ltb, if◌then◌else◌}
use fluxqueue.Base.Int.{pos}
use fluxqueue.Jobspec.{
  Container, Resources, residue, signed, add_int, int32, add_container, add_containers,
  generate_pod_resources,
}

-- A container whose requests of CPUs and memory are these.
pub record Requests (c : Container) (cpus bytes : ℕ) : Type 0 where
  pub cpu : c.cpu ≡ pos cpus
  pub memory : c.memory ≡ pos bytes

-- The containers ask for the numbers of the list, one pair each.
abbrev pub AllRequest : List Container → List (ℕ × ℕ) → Type 0
AllRequest [] [] = Unit
AllRequest [] (_ ∷ _) = ⊥
AllRequest (_ ∷ _) [] = ⊥
AllRequest (c ∷ cs) ((a, b) ∷ ns) = Requests c a b × AllRequest cs ns

abbrev pub cpus : List (ℕ × ℕ) → ℕ
cpus [] = 0
cpus ((a, b) ∷ ns) = a + cpus ns

abbrev pub bytes : List (ℕ × ℕ) → ℕ
bytes [] = 0
bytes ((a, b) ∷ ns) = b + bytes ns

add_int32_pos : (a b : ℕ) → a + b < 2 ^ 31 → add_int 32 (pos a) (int32 (pos b)) ≡ pos (a + b)
unfolding add_int int32 residue signed
add_int32_pos a b h = ground arith

add_int64_pos : (a b : ℕ) → a + b < 2 ^ 63 → add_int 64 (pos a) (pos b) ≡ pos (a + b)
unfolding add_int residue signed
add_int64_pos a b h = ground arith

add_containers_lem :
    (r : Resources) (k m : ℕ) (cs : List Container) (ns : List (ℕ × ℕ))
    → r.cpu ≡ pos k
    → r.memory ≡ pos m
    → AllRequest cs ns
    → k + cpus ns < 2 ^ 31
    → m + bytes ns < 2 ^ 63
    → ((add_containers r cs).cpu ≡ pos (k + cpus ns))
      × ((add_containers r cs).memory ≡ pos (m + bytes ns))
unfolding add_containers add_container
add_containers_lem r k m [] [] c d h fits holds = (ground (arith, c), ground (arith, d))
add_containers_lem r k m [] (_ ∷ _) c d h fits holds = elim h [ ]
add_containers_lem r k m (_ ∷ _) [] c d h fits holds = elim h [ ]
add_containers_lem r k m (x ∷ xs) ((a, b) ∷ ns) c d (h, hs) fits holds = ground (
  arith,
  add_containers_lem (add_container r x) (k + a) (m + b) xs ns
      (ground (arith, c, h.cpu, add_int32_pos k a (omega arith)))
      (ground (arith, d, h.memory, add_int64_pos m b (omega arith))) hs (omega arith) (omega arith),
)

-- Where the containers' CPUs add up to less than 2^31 and their bytes to less than 2^63, the CPUs of
-- the jobspec are their sum, or 1 if that is 0, and the memory is the sum of the bytes.
pub generate_pod_resources_lem :
    (cs : List Container) (ns : List (ℕ × ℕ))
    → AllRequest cs ns
    → cpus ns < 2 ^ 31
    → bytes ns < 2 ^ 63
    → ((generate_pod_resources cs).cpu ≡ (if ltb 0 (cpus ns) then pos (cpus ns) else pos 1))
      × ((generate_pod_resources cs).memory ≡ pos (bytes ns))
unfolding generate_pod_resources
generate_pod_resources_lem cs ns h fits holds =
    let none : Resources = record {
      cpu = pos 0;
      memory = pos 0;
      gpu = pos 0;
      storage = pos 0;
      labels = [];
    } in
    ground (arith, add_containers_lem none 0 0 cs ns refl refl h (omega arith) (omega arith))

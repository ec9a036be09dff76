-- ===== src/Cluster/Master/Shutdown.antt =====
-- sys_rpc/master_rpc.go, `Shutdown`: whom the master tells to shut down, and in which order. The end
-- of its own process is left out.
use my_cluster.Common.{
  ◌⊎◌, ℕ, ◌+◌, ◌≡◌, refl, ap, ap₂, ◌∙◌, List, [], ◌∷◌, ◌++◌, if◌then◌else◌, Bool, true, false, not,
  inl, inr, String, string_eq, Bool-cases, beq, eq_of_beq, arith,
}
use my_cluster.Strings.{codes, contains_text}
use my_cluster.Strings.Contains.{Within, contains_text-cases}
use my_cluster.Cluster.ChildMgr.{Child, Childs, get_childs}

abbrev pub is_gate_name : String → Bool
is_gate_name name = contains_text (codes name) (codes "gate")

-- The loops: the children with the word in their names, and those without it.
unfoldable pub gates : List Child → List Child
gates [] = []
gates (child ∷ childs) = if is_gate_name child.name then child ∷ gates childs else gates childs

unfoldable pub no_gates : List Child → List Child
no_gates [] = []
no_gates (child ∷ childs) =
    if is_gate_name child.name then no_gates childs else child ∷ no_gates childs

-- The children that are sent `Doshutdown`, with what `GetChilds` gives to each of the loops: children
-- come and go in between.
unfoldable pub shutdown : Childs → Childs → List Child
shutdown first second = gates (get_childs first) ++ no_gates (get_childs second)

-- How often a name stands in a list.
abbrev pub times : String → List Child → ℕ
times name [] = 0
times name (child ∷ childs) = (if beq child.name name then 1 else 0) + times name childs

times-append :
    (name : String) (xs ys : List Child) → times name (xs ++ ys) ≡ times name xs + times name ys
times-append name [] ys = omega arith
times-append name (x ∷ xs) ys =
    ap (λ (n : ℕ). (if beq x.name name then 1 else 0) + n) (times-append name xs ys) ∙ omega arith

one_more : (b : Bool) (x y : ℕ) → x ≡ (if b then y else 0) → 0 + x ≡ (if b then 0 + y else 0)
one_more true x y e = omega arith
one_more false x y e = omega arith

none_more : (b : Bool) (x y : ℕ) → x ≡ (if b then y else 0) → x ≡ (if b then 0 + y else 0)
none_more true x y e = omega arith
none_more false x y e = e

times-gates :
    (name : String) (childs : List Child)
    → times name (gates childs) ≡ (if is_gate_name name then times name childs else 0)
unfolding gates
times-gates name [] = elim (Bool-cases (is_gate_name name)) [
  | inl g ↦ rw g refl
  | inr n ↦ rw n refl
]
times-gates name (child ∷ childs) = elim (Bool-cases (beq child.name name)) [
  | inl same ↦
      let gate_too = ap is_gate_name (eq_of_beq child.name name same) in
      elim (Bool-cases (is_gate_name name)) [
        | inl g ↦
            let rest = times-gates name childs in
            rw (gate_too ∙ g, g, same) (ap (λ (n : ℕ). 1 + n) (rw g at rest))
        | inr n ↦ let rest = times-gates name childs in rw (gate_too ∙ n, n) (rw n at rest)
      ]
  | inr other ↦ elim (Bool-cases (is_gate_name child.name)) [
    | inl g ↦
        rw (g, other) (one_more (is_gate_name name) _ (times name childs) (times-gates name childs))
    | inr n ↦
        rw (n, other)
          (none_more (is_gate_name name) _ (times name childs) (times-gates name childs))
  ]
]

times-no_gates :
    (name : String) (childs : List Child)
    → times name (no_gates childs) ≡ (if not (is_gate_name name) then times name childs else 0)
unfolding no_gates
times-no_gates name [] = elim (Bool-cases (is_gate_name name)) [
  | inl g ↦ rw g refl
  | inr n ↦ rw n refl
]
times-no_gates name (child ∷ childs) = elim (Bool-cases (beq child.name name)) [
  | inl same ↦
      let gate_too = ap is_gate_name (eq_of_beq child.name name same) in
      elim (Bool-cases (is_gate_name name)) [
        | inl g ↦ let rest = times-no_gates name childs in rw (gate_too ∙ g, g) (rw g at rest)
        | inr n ↦
            let rest = times-no_gates name childs in
            rw (gate_too ∙ n, n, same) (ap (λ (k : ℕ). 1 + k) (rw n at rest))
      ]
  | inr other ↦ elim (Bool-cases (is_gate_name child.name)) [
    | inl g ↦
        rw (g, other)
          (none_more (not (is_gate_name name)) _ (times name childs) (times-no_gates name childs))
    | inr n ↦
        rw (n, other)
          (one_more (not (is_gate_name name)) _ (times name childs) (times-no_gates name childs))
  ]
]

-- The word stands in the name.
abbrev pub NamesGate : String → Type 0
NamesGate name = Within (codes "gate") (codes name)

abbrev pub AllGates : List Child → Type 0
AllGates [] = Unit
AllGates (child ∷ childs) = NamesGate child.name × AllGates childs

abbrev pub NoGates : List Child → Type 0
NoGates [] = Unit
NoGates (child ∷ childs) = (NamesGate child.name → ⊥) × NoGates childs

gates-AllGates : (childs : List Child) → AllGates (gates childs)
unfolding gates
gates-AllGates [] = tt
gates-AllGates (child ∷ childs) = elim (contains_text-cases (codes child.name) (codes "gate")) [
  | inl (found, named) ↦ rw found (named, gates-AllGates childs)
  | inr (missing, other) ↦ rw missing (gates-AllGates childs)
]

no_gates-NoGates : (childs : List Child) → NoGates (no_gates childs)
unfolding no_gates
no_gates-NoGates [] = tt
no_gates-NoGates (child ∷ childs) = elim (contains_text-cases (codes child.name) (codes "gate")) [
  | inl (found, named) ↦ rw found (no_gates-NoGates childs)
  | inr (missing, other) ↦ rw missing (other, no_gates-NoGates childs)
]

-- Whatever children come and go between the two loops of Shutdown: first only names in which the word
-- "gate" stands are told, and after them only names in which it does not; and a name with the word is
-- told as often as it stands among the children of the first loop, and any other name as often as it
-- stands among those of the second.
pub shutdown_lem :
    (name : String) (first second : Childs)
    → ((xs : List Child) × (ys : List Child) × (shutdown first second ≡ xs ++ ys)
        × AllGates xs
        × NoGates ys)
      × ((NamesGate name × (times name (shutdown first second) ≡ times name (get_childs first)))
          ⊎ ((NamesGate name → ⊥)
              × (times name (shutdown first second) ≡ times name (get_childs second))))
unfolding shutdown
shutdown_lem name first second =
    let told = gates (get_childs first) in
    let told_later = no_gates (get_childs second) in
    let sum =
      times-append name told told_later
      ∙ ap₂ ◌+◌ (times-gates name (get_childs first)) (times-no_gates name (get_childs second)) in
    (
      (
        told,
        told_later,
        refl,
        gates-AllGates (get_childs first),
        no_gates-NoGates (get_childs second),
      ),
      elim (contains_text-cases (codes name) (codes "gate")) [
        | inl (found, named) ↦ inl (named, sum ∙ rw found (omega arith))
        | inr (missing, other) ↦ inr (other, sum ∙ rw missing (omega arith))
      ],
    )

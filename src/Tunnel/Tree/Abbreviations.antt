-- ===== src/Tunnel/Tree/Abbreviations.antt =====
-- Which command the tree finds.
use g_cn_testbed_k8s.Base.{
  ℕ, ◌≡◌, ◌⊎◌, Bool-cases, inl, inr, true, List, [], ◌∷◌, Option, none, some, Text, codes, arith,
}
use g_cn_testbed_k8s.Strconv.{has_prefix}
use g_cn_testbed_k8s.Tunnel.Commands.{Object, pdr, far, qer, urr}
use g_cn_testbed_k8s.Tunnel.Tree.{
  Verb, add, modify, delete, get, list, CmdFunc, CmdNodes, node, token, find, find_in, cmd_tree,
  objects,
}

abbrev pub verb_name : Verb → Text
verb_name add = codes "add"
verb_name modify = codes "mod"
verb_name delete = codes "delete"
verb_name get = codes "get"
verb_name list = codes "list"

abbrev pub object_name : Object → Text
object_name pdr = codes "pdr"
object_name far = codes "far"
object_name qer = codes "qer"
object_name urr = codes "urr"

find-object :
    (v : Verb) (o : Object) (b : ℕ) (t : Text) (args : List Text)
    → has_prefix (object_name o) (b ∷ t) ≡ true
    → find (objects v) ((b ∷ t) ∷ args) ≡ (some (record { verb = v; object = o }), args)
unfolding find has_prefix
find-object v pdr b t args k = ground arith
find-object v far b t args k = ground arith
find-object v qer b t args k = ground arith
find-object v urr b t args k = ground arith

-- Any beginning of the names of a verb and of an object that is not empty finds their command, with
-- the arguments behind them.
pub find-names :
    (v : Verb) (o : Object) (a b : ℕ) (s t : Text) (args : List Text)
    → has_prefix (verb_name v) (a ∷ s) ≡ true
    → has_prefix (object_name o) (b ∷ t) ≡ true
    → find cmd_tree ((a ∷ s) ∷ (b ∷ t) ∷ args) ≡ (some (record { verb = v; object = o }), args)
unfolding find cmd_tree has_prefix
find-names add o a b s t args h k = ground (arith, find-object add o b t args k)
find-names modify o a b s t args h k = ground (arith, find-object modify o b t args k)
find-names delete o a b s t args h k = ground (arith, find-object delete o b t args k)
find-names get o a b s t args h k = ground (arith, find-object get o b t args k)
find-names list o a b s t args h k = ground (arith, find-object list o b t args k)

object_found :
    (v : Verb) (b : Text) (args : List Text)
    → let found = find (objects v) (b ∷ args) in
      (found.0 ≡ none)
      ⊎ ((o : Object) × (found ≡ (some (record { verb = v; object = o }), args))
          × (has_prefix (object_name o) b ≡ true))
unfolding find
object_found v b args = elim (Bool-cases (has_prefix (codes "pdr") b)) [
  | inl p ↦ inr (pdr, ground arith, p)
  | inr p ↦ elim (Bool-cases (has_prefix (codes "far") b)) [
    | inl q ↦ inr (far, ground arith, q)
    | inr q ↦ elim (Bool-cases (has_prefix (codes "qer") b)) [
      | inl r ↦ inr (qer, ground arith, r)
      | inr r ↦ elim (Bool-cases (has_prefix (codes "urr") b)) [
        | inl u ↦ inr (urr, ground arith, u)
        | inr u ↦ inl (ground arith)
      ]
    ]
  ]
]

-- A command that is found stands below the first verb of a list, or is found in the rest of it.
found_below :
    (v : Verb) (l : CmdNodes) (a b : Text) (args : List Text) (f : CmdFunc) (params : List Text)
    → find_in (node (token (verb_name v) (objects v)) l) (a ∷ b ∷ args) ≡ (some f, params)
    → ((f.verb ≡ v)
        × (has_prefix (verb_name v) a ≡ true)
        × (has_prefix (object_name f.object) b ≡ true)
        × (params ≡ args))
      ⊎ (find_in l (a ∷ b ∷ args) ≡ (some f, params))
unfolding find
found_below v l a b args f params h = elim (Bool-cases (has_prefix (verb_name v) a)) [
  | inr p ↦ inr (ground arith)
  | inl p ↦ elim (object_found v b args) [
    | inl e ↦ inr (ground arith)
    | inr (o, e, q) ↦
        let same : ◌≡◌ {A = Option CmdFunc × List Text}
            (some (record { verb = v; object = o }), args) (some f, params) =
          ground arith in
        inl (ground arith, p, ground arith, ground arith)
  ]
]

abbrev verb_nodes : List Verb → CmdNodes
verb_nodes [] = CmdNodes.end
verb_nodes (v ∷ l) = node (token (verb_name v) (objects v)) (verb_nodes l)

found_among :
    (l : List Verb) (a b : Text) (args : List Text) (f : CmdFunc) (params : List Text)
    → find_in (verb_nodes l) (a ∷ b ∷ args) ≡ (some f, params)
    → (has_prefix (verb_name f.verb) a ≡ true)
      × (has_prefix (object_name f.object) b ≡ true)
      × (params ≡ args)
found_among [] a b args f params h = absurd (unfold find in ground arith)
found_among (v ∷ l) a b args f params h = elim (found_below v (verb_nodes l) a b args f params h) [
  | inl (same, p, q, e) ↦ (rw same p, q, e)
  | inr later ↦ found_among l a b args f params later
]

-- A command is found only if the first two arguments begin the names of its verb and its object, and
-- its parameters are the arguments behind them.
pub names-find :
    (a b : Text) (args : List Text) (f : CmdFunc) (params : List Text)
    → find cmd_tree (a ∷ b ∷ args) ≡ (some f, params)
    → (has_prefix (verb_name f.verb) a ≡ true)
      × (has_prefix (object_name f.object) b ≡ true)
      × (params ≡ args)
unfolding cmd_tree find
names-find a b args f params h =
    found_among (add ∷ modify ∷ delete ∷ get ∷ list ∷ []) a b args f params h

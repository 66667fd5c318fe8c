-- ===== src/Tunnel/Tree.antt =====
-- The tree of commands and the entry of the tool: cmd.go, cmdtree.go and main.go of
-- PacketRusher/internal/cmd/gogtp5g-tunnel.
pub mod Abbreviations
pub mod Calls
use g_cn_testbed_k8s.Base.{ℕ, Bool, List, [], ◌∷◌, Option, none, some, Text, codes, if◌then◌else◌}
use g_cn_testbed_k8s.Strconv.{has_prefix}
use g_cn_testbed_k8s.Tunnel.Parser.{Net}
use g_cn_testbed_k8s.Tunnel.Commands.{
  Object, pdr, far, qer, urr, Run, Failure, Kernel, cmd_add_pdr, cmd_add_far, cmd_add_qer,
  cmd_add_urr, cmd_mod_pdr, cmd_mod_far, cmd_mod_qer, cmd_mod_urr, cmd_delete_pdr, cmd_delete_far,
  cmd_delete_qer, cmd_delete_urr, cmd_get_pdr, cmd_get_far, cmd_get_qer, cmd_get_urr, cmd_list_pdr,
  cmd_list_far, cmd_list_qer, cmd_list_urr,
}

pub data Verb : Type 0 where
  add modify delete get list : Verb

-- A command stands for its function, `CmdAddPDR` and so on.
pub record CmdFunc : Type 0 where
  pub verb : Verb
  pub object : Object

pub call_verb : Kernel → Net → Verb → Object → List Text → Run
unfolding cmd_add_pdr cmd_add_far cmd_add_qer cmd_add_urr cmd_mod_pdr cmd_mod_far cmd_mod_qer
    cmd_mod_urr cmd_delete_pdr cmd_delete_far cmd_delete_qer cmd_delete_urr cmd_get_pdr cmd_get_far
    cmd_get_qer cmd_get_urr cmd_list_pdr cmd_list_far cmd_list_qer cmd_list_urr
call_verb kernel net add pdr = cmd_add_pdr kernel net
call_verb kernel net add far = cmd_add_far kernel net
call_verb kernel net add qer = cmd_add_qer kernel
call_verb kernel net add urr = cmd_add_urr kernel
call_verb kernel net modify pdr = cmd_mod_pdr kernel net
call_verb kernel net modify far = cmd_mod_far kernel net
call_verb kernel net modify qer = cmd_mod_qer kernel
call_verb kernel net modify urr = cmd_mod_urr kernel
call_verb kernel net delete pdr = cmd_delete_pdr kernel
call_verb kernel net delete far = cmd_delete_far kernel
call_verb kernel net delete qer = cmd_delete_qer kernel
call_verb kernel net delete urr = cmd_delete_urr kernel
call_verb kernel net get pdr = cmd_get_pdr kernel
call_verb kernel net get far = cmd_get_far kernel
call_verb kernel net get qer = cmd_get_qer kernel
call_verb kernel net get urr = cmd_get_urr kernel
call_verb kernel net list pdr = cmd_list_pdr kernel
call_verb kernel net list far = cmd_list_far kernel
call_verb kernel net list qer = cmd_list_qer kernel
call_verb kernel net list urr = cmd_list_urr kernel

unfoldable pub call : Kernel → Net → CmdFunc → List Text → Run
unfolding call_verb
call kernel net f = call_verb kernel net f.verb f.object

-- `no_node` is the nil interface.
mutual
  pub data CmdNode : Type 0 where
    no_node : CmdNode
    func : CmdFunc → CmdNode
    token : (name : Text) (next : CmdNode) → CmdNode
    nodes : CmdNodes → CmdNode

  pub data CmdNodes : Type 0 where
    end : CmdNodes
    node : CmdNode → CmdNodes → CmdNodes

-- `Find`: the function and the parameters that are left, or no function.
unfoldable mutual
  pub find : CmdNode → List Text → Option CmdFunc × List Text
  find no_node args = (none, args)
  find (func f) args = (some f, args)
  find (token name next) [] = (none, [])
  find (token name next) (a ∷ args) =
      let below = find next args in if has_prefix name a then below else (none, a ∷ args)
  find (nodes l) args = find_in l args

  pub find_in : CmdNodes → List Text → Option CmdFunc × List Text
  find_in end args = (none, args)
  find_in (node n l) args =
      let later = find_in l args in
      let found = find n args in elim found.0 [ none ↦ later | some f ↦ (some f, found.1) ]

-- The four objects below a verb.
abbrev pub objects : Verb → CmdNode
objects v = nodes (
    node (token (codes "pdr") (func (record { verb = v; object = pdr }))) (
      node (token (codes "far") (func (record { verb = v; object = far }))) (
        node (token (codes "qer") (func (record { verb = v; object = qer })))
          (node (token (codes "urr") (func (record { verb = v; object = urr }))) end))))

-- `CmdTree`
unfoldable pub cmd_tree : CmdNode
cmd_tree = nodes (
    node (token (codes "add") (objects add)) (
      node (token (codes "mod") (objects modify)) (
        node (token (codes "delete") (objects delete)) (
          node (token (codes "get") (objects get))
            (node (token (codes "list") (objects list)) end)))))

-- How the process ends: with the usage or the complaint that the command is unknown, by a panic where
-- not even the name of the program is given, or as a command ended.
pub data Exit : Type 0 where
  panics usage unknown_command : Exit
  ran : Run → Exit

-- `main` with the arguments of the process, the program's name first.
unfoldable pub main : Kernel → Net → List Text → Exit
unfolding find cmd_tree call
main kernel net [] = panics
main kernel net (prog ∷ []) = usage
main kernel net (prog ∷ a ∷ []) = usage
main kernel net (prog ∷ a ∷ b ∷ args) =
    let found = find cmd_tree (a ∷ b ∷ args) in
    elim found.0 [ none ↦ unknown_command | some f ↦ ran (call kernel net f found.1) ]

-- ===== src/CommandGuard/Syntax.antt =====
-- The syntax tree of mvdan.cc/sh as commandguard/syntax_policy.go and words.go look at it: what
-- `syntax.Walk` visits below a node, with the fields that the code reads.
use eino_agent_extensions.Prelude.{
  ℕ, ◌+◌, Bool, true, false, ◌&&◌, ◌||◌, not, Option, none, some, Bytes, leb, if◌then◌else◌,
}
use eino_agent_extensions.Context.{Ctx, poll}
use eino_agent_extensions.CommandGuard.Words.{
  Outcome, abstain, invalid_command, unanalysable, analysis_limit, opaque_variable_target,
}

pub data Dialect : Type 0 where
  posix bash : Dialect

-- The fields of `syntax.ParamExp` that `simpleParameter` reads, each as "is it set?".
pub record ParamExp : Type 0 where
  pub param : Bool
  pub flags : Bool
  pub excl : Bool
  pub length_ : Bool
  pub width : Bool
  pub is_set : Bool
  pub split : Bool
  pub glob_subst : Bool
  pub rc_expand : Bool
  pub nested_param : Bool
  pub index : Bool
  pub modifiers : Bool
  pub slice : Bool
  pub repl : Bool
  pub names : Bool
  pub exp : Bool

-- The fields of `syntax.Assign`; a name that is nil is `none`.
pub record Assign : Type 0 where
  pub name : Option Bytes
  pub index : Bool
  pub array : Bool
  pub naked : Bool
  pub append : Bool

-- `plain` is a File, Stmt, Comment, BinaryCmd, Block, Subshell, IfClause, WhileClause, CaseClause,
-- CaseItem, Redirect, CmdSubst or ProcSubst; `other` is any type that the code does not name. The
-- arguments of a call are the words among its children, its assignments the other ones.
mutual
  pub data Node : Type 0 where
    lit : Bytes → Node
    sgl_quoted : Bool → Bytes → Node
    dbl_quoted : Bool → Nodes → Node
    word : Nodes → Node
    call : Nodes → Node
    word_iter : Option Bytes → Nodes → Node
    for_clause : Bool → Nodes → Node
    assign : Assign → Nodes → Node
    param_exp : ParamExp → Nodes → Node
    ext_glob : Nodes → Node
    plain : Nodes → Node
    other : Nodes → Node

  pub data Nodes : Type 0 where
    nil : Nodes
    cons : Node → Nodes → Nodes

unfoldable pub simple_parameter : ParamExp → Bool
simple_parameter p =
    p.param
    && not p.flags
    && not p.excl
    && not p.length_
    && not p.width
    && not p.is_set
    && not p.split
    && not p.glob_subst
    && not p.rc_expand
    && not p.nested_param
    && not p.index
    && not p.modifiers
    && not p.slice
    && not p.repl
    && not p.names
    && not p.exp

-- `v.Name == nil || opaqueVariableTarget(v.Name.Value)`
unfoldable pub opaque : Option Bytes → Bool
unfolding opaque_variable_target
opaque none = true
opaque (some name) = opaque_variable_target name

-- The bounds of a policy.
pub record Limits : Type 0 where
  pub max_raw_input_bytes : ℕ
  pub max_json_depth : ℕ
  pub max_json_nodes : ℕ
  pub max_command_bytes : ℕ
  pub max_analysis_bytes : ℕ
  pub max_ast_nodes : ℕ
  pub max_ast_depth : ℕ
  pub max_words : ℕ
  pub max_word_bytes : ℕ
  pub max_wrapper_depth : ℕ
  pub max_in_flight : ℕ

-- The counters of one analysis. `decoded` is left out: see Walk.
pub record Analysis : Type 0 where
  pub ctx : Ctx
  pub bytes : ℕ
  pub nodes : ℕ
  pub words : ℕ

abbrev pub refuse_if : Bool → Outcome → Outcome
refuse_if true o = o
refuse_if false o = abstain

-- The switch of `inspectNode` over the types of nodes without a counter of their own.
unfoldable pub admit : Node → Outcome
unfolding simple_parameter opaque
admit (lit v) = abstain
admit (sgl_quoted d v) = abstain
admit (dbl_quoted d ns) = abstain
admit (word ns) = abstain
admit (call ns) = abstain
admit (word_iter name ns) = refuse_if (opaque name) unanalysable
admit (for_clause over_words ns) = refuse_if (not over_words) unanalysable
admit (assign v ns) =
    refuse_if (opaque v.name || v.index || v.array || v.naked || v.append) unanalysable
admit (param_exp v ns) = refuse_if (not (simple_parameter v)) unanalysable
admit (ext_glob ns) = unanalysable
admit (plain ns) = abstain
admit (other ns) = unanalysable

-- The case of a word counts it.
unfoldable pub count_word : Limits → Node → Analysis → Analysis × Outcome
unfolding admit
count_word l (word ns) a =
    if leb l.max_words a.words
    then (a, analysis_limit)
    else (record a { words = a.words + 1 }, abstain)
count_word l n a = (a, admit n)

unfoldable pub inspect_node : Limits → Node → ℕ → Analysis → Analysis × Outcome
unfolding count_word
inspect_node l n depth a =
    let b = record a { ctx = (poll a.ctx).1 } in
    if (poll a.ctx).0
    then (b, invalid_command)
    else if leb l.max_ast_nodes b.nodes || leb l.max_ast_depth depth
    then (b, analysis_limit)
    else count_word l n (record b { nodes = b.nodes + 1 })

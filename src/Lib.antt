-- ===== src/Lib.antt =====
-- The specification rewriter of Spoq2 (src/optimizations, include/nodes.h), and the part of its
-- front end that makes structured code of basic blocks (src/frontend/IRLoader).
--
-- Spoq2 loads LLVM IR, turns the graph of basic blocks of each function into nested conditionals
-- and loops by rules that remove one node or join the branches of one, lifts the result to a
-- functional specification in Coq's syntax, and rewrites that specification, pass after pass, until
-- it is short. A specification is a tree of `SpecNode`s. A pass (a rule) is a local function on nodes that `SpecRules::rec_apply` runs over the tree; the
-- rules copy, compare and substitute nodes. A pass of the cone of influence drops the writes that
-- no invariant reads and merges the branches that return the same state. Calls of the solver are
-- answered from a persistent cache, a file of records.
--
-- The files, and the code that each is about:
--   Base: shared names, tests on numbers and texts.
--   Ast: the nodes of include/nodes.h and the types and arguments of include/values.h. The owning
--     pointers are values: a node is never shared by two trees.
--   Copy: the two virtual `deep_copy` methods. Copy/Meaning: the meaning of a copy.
--   Equal: `operator==` of the nodes. Equal/Meaning: the meaning of equal nodes;
--     Equal/Consistent: one sign for a word; Equal/Signs: the sign in comparison and print.
--   Scope: `free_vars`, `get_vars_from_pattern`, `contains_vars` of src/optimizations/rules.cpp,
--     and the two local functions on patterns. Scope/Meaning: `contains_vars`;
--     Scope/Free: `free_vars`.
--   Subst: `subst` of src/optimizations/rules.cpp. Subst/Meaning: the meaning of the result.
--   Meaning: what a specification means, the description that the theorems on passes are about.
--     Meaning/Envs and Meaning/Reads: what a pattern and a node read and bind;
--     Meaning/Hypotheses: quantifiers without hypotheses. An integer constant means the number that
--     `IntConst::to_string` prints: a signed word from 2 ^ 63 on is negative.
--   Rules: `rec_apply` and the end of each rule. Rules/Meaning: from one node to a whole tree.
--     Rules/Branch, Let, Rely, Maps, When, Builtin and Simplify: the local functions of the rules.
--     Rules/Simplify/Fold: constants; Negation: negated comparisons; Copies: its copies.
--   Coi: the tests on fields, `hide_write`, `try_get_return_state` and `merge_branch` of
--     src/optimizations/coi.cpp. Coi/Fields: the tests; Coi/Merge: the merges.
--   Cache: `SMTParser` of src/optimizations/z3_pcache.hpp. Cache/Record: writing and reading.
--     Cache/Store: `SMTHashMapCache`; Lookup: insertion; Answers: lookups after
--     insertions; Reload: the file.
--   Dict: the template `dict` of src/frontend/IRLoader/control_flow.cpp. Dict/Valid: its invariant;
--     Refines: an association list; Laws: lookups after changes.
--   Ir: types, values and instructions (include/irtypes.h, irvalues.h, instructions.h). Ir/Sizes:
--     sizes of types and integer constants.
--   Flow: the graph of blocks of src/frontend/IRLoader/control_flow.cpp. Flow/Rules:
--     `rule_eliminate_leaf`, `rule_eliminate_bridge`; Flow/Branches: `rule_merge_branches`,
--     `rule_merge_branches_local`; Cases: when they do something. Flow/Build and
--     Flow/Phi: the first half of `control_flow_conversion`; Flow/Copies:
--     `rule_duplicate_node`. Flow/Links: edges and backward
--     links. Flow/Meaning: what a graph does; Choice: the
--     edge that is taken; Runs: runs to an end; Edges, Fusion, Absorb, Merge,
--     Merged and
--     Local: the rules; Endings and Whole: all steps of the main loop together.
--   Tests: a concrete interpretation, runs, and instances of the theorems.
--
-- The meaning is relative to an interpretation, a parameter: the code prints Coq and never computes
-- a value. A law of Coq's library that a rule relies on (`ZMap`, `rely`, `=s`) is a named hypothesis,
-- in a record next to the rule, and Tests/World has an interpretation in which the laws hold.
-- Other parameters: `known` for the symbol table (`Project::is_known_symbol`), `same_type` for the
-- comparison of two pointers to types, `print` for the conversion of a state to a string, the hash
-- function, `std::to_string` and `std::stoi`, and `undefined` for a division by zero and a shift by
-- 64 or more. A text of the cache is the list of its characters, which the parser
-- reads as a C string: the code 0 ends it. An `int` is an integer in its range (`IsInt`), and
-- the counters of the parser wrap around at 2 ^ 32; the counts of queries and hits do not.
--
-- Passes are structural recursion. The parser of the cache runs on fuel: a record is given two
-- rounds for each character and five more, the file one record for each character and one more.
-- A file that the cache writes has a record of at least one character for each entry, which five
-- rounds read. `renumber` is given the length of its text, and takes a character in every round. An
-- exception is `none`, or a constructor of its own.
--
-- Edges and backward links of a graph are shared, so they have addresses; `new_edge` and `new_back`
-- are the next ones. A run of a graph is relative to a machine, which says what an instruction does
-- and when a value holds: a parameter. Runs are a relation, so they need no fuel. The names of
-- variables are turned into Coq's by the parameter `coq_name`. The table of structures is the
-- parameter `struct_size` of `szof`.
--
-- Not modelled: the analyses that need the solver (z3_rules.cpp, symbolic.cpp, z3_utils.cpp), type
-- inference, unfolding and the other rules of rules.cpp, the propagation of fields in coi.cpp, the
-- rest of the front end (loading of LLVM IR, loops and strongly connected components of graphs of
-- blocks, the making of specifications, the parser) and the back end (printing of Coq projects),
-- reading and writing of files but for the cache's, logging and messages. Numbers of nodes, cached
-- texts and lengths are left out of the nodes: no modelled function reads them.
pub mod Base
pub mod Ast
pub mod Copy
pub mod Dict
pub mod Ir
pub mod Flow
pub mod Meaning
pub mod Equal
pub mod Scope
pub mod Subst
pub mod Rules
pub mod Coi
pub mod Cache
pub mod Tests

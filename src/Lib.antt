-- ===== src/Lib.antt =====
-- whack is a compiler that translates a small language to LLVM's intermediate language. A parser
-- (mpc, with whack.grammar) makes a syntax tree; each kind of node has a class under ast/ whose
-- constructor reads the tree and whose `codegen` changes an LLVM module; module.hpp walks over the
-- tree and calls them. This library models the readers of the tree, the tables that the compiler
-- keeps in the module's named metadata, the types, the declarations, expressions, statements and
-- functions.
--
-- (Prelude) native numbers, lists and Boolean tests that the other files share.
-- (Outcome) `llvm::Error` and `llvm::Expected` of error.hpp. An operation on the module ends in a
-- result, an error with its format and arguments, a fault (what C++ leaves undefined), or without
-- fuel; the module that it has reached is kept, also by an error.
-- (Ast) `mpc_ast_t` and the readers of ast/ast.hpp, with the words of reserved.def.
-- (StringRef, Llvm) the calls that the compiler makes to LLVM, which is not part of the repository,
-- as records of operations with the laws of their documentation. Tests.Texts, Tests.Nodes and Tests.Machine
-- keep them.
-- (Metadata) ast/metadata.hpp, and `Structure::addMetadata` of ast/structure.hpp.
-- (Types) types.hpp; Types.Codegen: ast/type.hpp, ast/typelist.hpp, ast/fntype.hpp and
-- ast/arraytype.hpp. `Type::codegen`, `getType` and `TypeList::codegen` call each other.
-- (Decl.Ident) `Ident::isUnique` of ast/ident.hpp. Decl.Alias: ast/alias.hpp. Decl.Enumeration:
-- ast/enumeration.hpp. Decl.Structure: ast/structure.hpp, with the constructor of
-- ast/declassign.hpp. Decl.Interface: ast/interface.hpp, with `getIdentifier` of
-- ast/identifier.hpp.
-- (Decl.DataClass) ast/dataclass.hpp, whose `construct` is in Expr.Members. Decl.ExternFunc: ast/externfunc.hpp, with
-- `getReturnType` of ast/type.hpp.
-- (Decl.Args) ast/args.hpp.
-- (Syntax) which class reads which node: `getStmt` of ast/stmt.hpp, `getFactor` of ast/factor.hpp,
-- `getExpressionValue` and `getExprList` of ast/expression.hpp.
-- (Builder) `llvm::IRBuilder` with the function that it fills, as a record of operations and laws.
-- (Expr) Expr.Operators: `OpsTable` of ast/ast.hpp, ast/term.hpp and ast/lexp.hpp. Expr.Conditions:
-- ast/comparison.hpp, ast/boolexpr.hpp, ast/conditional.hpp, ast/condition.hpp and ast/ternary.hpp.
-- Expr.Factors: the literals, names, dereferences, increments and elements among the factors.
-- Expr.Calls: ast/funccall.hpp, with the layout of its node in Expr.Calls.Chained;
-- Expr.Interfaces: `implements` and `cast` of ast/interface.hpp and `bindThis` of
-- ast/structmember.hpp, which calls use. Expr.Members: ast/structmember.hpp, ast/fncast.hpp and
-- `construct` of ast/dataclass.hpp. Expr.InitList: ast/initlist.hpp. Expr.Initializers: ast/memberinitlist.hpp,
-- ast/initializer.hpp, ast/value.hpp, ast/newexpr.hpp, ast/string.hpp, ast/expansion.hpp and
-- ast/expandop.hpp. Expr.Comprehension: ast/listcomprehension.hpp, ast/forinexpr.hpp and
-- ast/range.hpp. Expr.Captures and Expr.Closures: ast/closure.hpp. Expr.Tied ties the factors together.
-- (Stmt) Stmt.Values: ast/returnstmt.hpp, ast/assign.hpp, ast/letexpr.hpp and ast/opeq.hpp.
-- Stmt.Branches: ast/ifstmt.hpp, ast/whilestmt.hpp and ast/forstmt.hpp. Stmt.Jumps: ast/breakstmt.hpp
-- and ast/continuestmt.hpp. Stmt.Body: ast/body.hpp, ast/deferstmt.hpp and ast/tags.hpp.
-- Stmt.Declarations: ast/declassign.hpp and ast/deletestmt.hpp,
-- and the statements that declare an alias, a struct or an enumeration. Stmt.Matches: ast/match.hpp and
-- ast/typeswitch.hpp. Stmt.Codegen ties the classes together. What `codegen` leaves in a statement for `runScopeExit`
-- is its result there.
-- (Func) ast/function.hpp; Func.Structs: ast/structfunc.hpp and ast/structop.hpp, with
-- `getStructOpName` in Decl.StructOpName; Func.Bind: `bindFirstFuncArgument`, which the expressions
-- take as an argument and Stmt.Codegen gives to them; Func.Element: what module.hpp calls for functions and
-- options.
-- (Decl.CompilerOpt) ast/compileropt.hpp.
-- (Driver) `traverse` and `codegen` of module.hpp. The `codegen` of functions, members of structs and
-- options is a parameter there, which Func.Element gives; the passes at the end are parameters, and
-- so is the order of nodes that mpc gives.
-- (Tests) a machine for the interfaces, and the theorems applied on it.
--
-- The declarations share state only through the module: the tables "structures", "interfaces",
-- "classes" and "aliases" of its named metadata, its types, functions and globals. Decl.Ident reads
-- the tables, the others add to them.
--
-- The module of the function that is filled is part of the state of the builder. A value of LLVM has
-- one type and, in a run that reaches it, one meaning; the laws say what the meaning of an
-- arithmetic instruction is. Sub-expressions and statements are built by parameters of the classes,
-- which Expr.Factors and Stmt.Codegen tie together. A constructor that reads a child that is not there
-- is undefined when the node is reached, where the program reads the whole tree first.
--
-- Fuel: `getType` takes fuel, of which each call down the tree spends one; the height of the tree
-- bounds these calls. `getUnderlyingType` takes the number of pointers that LLVM's type has.
--
-- A comparison, a boolean expression and an expression take the height of their node; factors and
-- statements take fuel for the height of the tree. The searches of `break`, `continue` and
-- `applyDefer` follow the blocks of the function on fuel, and in the program do not end on a cycle
-- that does not pass what they look for.
--
-- An `assert` is checked unless `NDEBUG` is defined, which the builder says where a theorem depends
-- on it.
--
-- Not modelled: `changeFuncReturnType` is a call of the interface to LLVM; the order in which LLVM's
-- map of the captures of a closure is read is a parameter; deferred statements that a body keeps when
-- it is generated again; sizeof, alignof, append and len, whose classes getFactor never makes; the
-- rest of module.hpp, which starts LLVM and the linker; the parser, the pass that calls constructors,
-- and the runtime. Warnings are output only and are left out. The text of an error is kept as its
-- format and its arguments.
pub mod Prelude
pub mod Outcome
pub mod Builder
pub mod Expr
pub mod Stmt
pub mod Func
pub mod StringRef
pub mod Ast
pub mod Llvm
pub mod Metadata
pub mod Types
pub mod Decl
pub mod Syntax
pub mod Driver
pub mod Tests

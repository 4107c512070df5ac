-- ===== src/Lib.antt =====
-- Limit (src/, docs/, tests/): a statically typed language with a compiler to a register code (LIR), a
-- virtual machine for that code, and a runtime with fibers and channels. This library models parts of
-- the compiler and of the backend, and states what they do.
--
-- Which file models which part of the repository:
--   Concurrency/Fiber.antt: src/backend/task.hh, src/backend/fiber.hh. TaskContext and Fiber are the
--     classes of these names, and each method is a function of its name. A `uint64_t` is a native
--     number; an `int64_t` program counter is the `uint64_t` that it is compared as.
--   Concurrency/Channel.antt: src/backend/channel.hh. `Channel`'s methods, over a store of fibers,
--     since wait lists hold pointers to fibers that others share. `call` and `run` are interleavings
--     of the calls of all fibers.
--   Concurrency/Scheduler.antt: src/backend/scheduler.hh. `Scheduler`'s methods; `Step` and `Reach`
--     are the calls that the rest of the program can make, in any order.
--   Memory/Ast.antt, Memory/State.antt, Memory/Checker.antt: src/frontend/memory_checker.{hh,cpp},
--     with the nodes of src/frontend/ast.hh. The state is passed on; the errors that
--     go to the global Debugger are a list in the state.
--   Runtime/Word.antt, Runtime/Arithmetic.antt: src/runtime/runtime_value_base.h and the numbers of
--     src/runtime/runtime_value.c. A value is a word; the heap is the list of its objects.
--   Lir/Inst.antt, Lir/Semantics.antt: src/lir/lir.hh, and what its comments say that a list of
--     instructions does.
--   Lir/Optimizer/*.antt: src/lir/optimizer.cpp, with a file for each pass and the loop over them in
--     Lir/Optimizer/Passes.antt. Below each pass stand the theorems about it.
--   Containers/Dict.antt, Containers/Vector.antt, Containers/Tuple.antt: src/runtime/runtime_dict.c,
--     src/runtime/runtime_list.c, src/runtime/runtime_tuple.c, over the blocks of words of
--     Containers/Block.antt. A pointer to a container is the container, and is not null. The hashes and
--     comparisons of keys stand in Containers/Dict/IntKeys.antt and Containers/Dict/BoxedKeys.antt.
--   Modules/Manager.antt, Modules/Manager/Dfs.antt: src/frontend/module_manager.{hh,cpp}; the two
--     depth-first searches stand in the second.
--   Types/Term.antt, Types/Shallow.antt, Types/Conversion.antt: src/frontend/value.hh (types) and
--     `canConvert` of src/backend/types.hh, with a function for each test that it makes. What types mean is in
--     Types/Conversion/Meaning.antt.
--   Types/Abi.antt: src/lir/lir_types.cpp.
--   Environment.antt: src/backend/env.hh. An environment is its place in a store.
--   Symbols/Table.antt: src/backend/symbol_table.{hh,cpp}. A stack of scopes is a list, the innermost
--     first.
--   Symbols/Registry.antt: src/lir/function_registry.{hh,cpp}.
--   Vm/Machine.antt: src/backend/vm/register.{hh,cpp} and src/backend/vm/ops/, the instructions on
--     numbers, globals and the program counter, over the words and the heap of Runtime.
-- How they interact: channels resume the fibers of the scheduler through pointers and do not tell
-- the scheduler; the virtual machine calls the channels and computes with the runtime's words,
-- which are also the elements and keys of the containers. The optimizer folds constants into the
-- words of the runtime and allocates on its heap.
--
-- Bounds and fuel: the walks and loops above recur on the program or on the list of fibers, and
-- take no fuel. The worklist of `remove_unreachable_code` and the peephole loop have one unit of
-- fuel for each instruction, which is enough, and `optimize` makes 10 rounds, as the code does. The
-- searches of the module manager have one for each name that they can meet, and the rounds of
-- `resolve_all` one for each path that the imports can lead to. `can_convert` answers no without
-- fuel; the nodes of the two types are enough where no structural type is in them. A lookup in an
-- environment takes more fuel than the number of its place, since parents are older. The `uint64_t`
-- counters of the scheduler wrap at 2^64; the checker's `int` counters are taken as unbounded.
--
-- Not modelled:
--   Machine instructions on objects (src/backend/vm/ops/vm_strings.cpp, src/backend/vm/ops/io.cpp,
--     src/backend/vm/ops/frames.cpp, src/backend/vm/ops/objects.cpp,
--     src/backend/vm/ops/concurrency.cpp, src/backend/vm/ops/collections.cpp,
--     src/backend/vm/ops/vm_calls.cpp, src/backend/vm/constant_utils.hh,
--     src/backend/vm/register_helpers.cpp, src/backend/vm/register_main.cpp,
--     src/backend/vm/register_top.cpp): Containers, frames, text, channels, calls and output.
--   LIR printing (src/lir/lir.cpp): Text of instructions and functions, and the graph of basic
--     blocks.
--   Runtime headers (src/runtime/runtime.h, src/runtime/runtime_value.h,
--     src/runtime/runtime_string.h): Declarations of the C runtime.
--   Scanner (src/frontend/scanner.cpp, src/frontend/scanner.hh): The lexer. It belongs to the
--     front end, of which the memory checker is modelled.
--   Parser and concrete syntax (src/frontend/parser.cpp, src/frontend/parser.hh,
--     src/frontend/parser/expressions.cpp, src/frontend/parser/statements.cpp,
--     src/frontend/parser/types.cpp, src/frontend/parser/patterns.cpp, src/frontend/cst.cpp,
--     src/frontend/cst.hh, src/frontend/cst/utils.cpp, src/frontend/cst/utils.hh,
--     src/frontend/cst/printer.cpp, src/frontend/cst/printer.hh): Recursive descent over shared
--     syntax trees with error recovery; much of it is tree plumbing.
--   Tree builder, printer and optimizer (src/frontend/ast.hh, src/frontend/ast/builder.cpp,
--     src/frontend/ast/builder.hh, src/frontend/ast/printer.cpp, src/frontend/ast/printer.hh,
--     src/frontend/ast/optimizer.cpp): Of ast.hh the memory checker's nodes are modelled. The
--     printer only writes text.
--   Type checker (src/frontend/type_checker.hh, src/frontend/type_checker_factory.cpp,
--     src/frontend/type_checker/core.cpp, src/frontend/type_checker/declarations.cpp,
--     src/frontend/type_checker/expressions.cpp, src/frontend/type_checker/memory.cpp,
--     src/frontend/type_checker/patterns.cpp, src/frontend/type_checker/statements.cpp,
--     src/frontend/type_checker/types.cpp, src/frontend/type_checker/utils.cpp): It rests on the
--     type system of backend/types.hh.
--   Values and big numbers (src/frontend/value.cpp, src/backend/value.hh, src/backend/value.cpp,
--     src/backend/big_int.hh, src/backend/register_value.hh, src/backend/shared_cell.hh): Tagged
--     unions of every value of the language; the C runtime's words are modelled instead.
--   LIR generator and functions (src/lir/generator.cpp, src/lir/generator.hh,
--     src/lir/generator/core.cpp, src/lir/generator/concurrency.cpp,
--     src/lir/generator/expressions.cpp, src/lir/generator/modules.cpp, src/lir/generator/oop.cpp,
--     src/lir/generator/signatures.cpp, src/lir/generator/statements.cpp, src/lir/functions.cpp,
--     src/lir/functions.hh, src/lir/lir_utils.cpp, src/lir/builtin_functions.cpp,
--     src/lir/builtin_functions.hh, src/lir/metrics.cpp, src/lir/metrics.hh, src/lir/serializer.cpp,
--     src/lir/serializer.hh): The generator translates the whole tree.
--   Fyra backend (src/backend/fyra/builder.cpp, src/backend/fyra/builder.hh,
--     src/backend/fyra/fyra.cpp, src/backend/fyra/fyra.hh,
--     src/backend/fyra/fyra_builtin_functions.cpp, src/backend/fyra/fyra_builtin_functions.hh,
--     src/backend/fyra/fyra_ir_generator.cpp, src/backend/fyra/fyra_ir_generator.hh): Calls the
--     external Fyra code generator, whose sources are not in the repository.
--   Memory model library (src/memory/analyzer.hh, src/memory/compiler.hh, src/memory/memory.hh,
--     src/memory/model.hh, src/memory/runtime.hh): Templates that no other part uses at run time.
--   C runtime (src/runtime/runtime.c, src/runtime/runtime_string.c): Allocation, text and output.
--   Drivers, diagnostics and tools (src/main.cpp, src/limitly.cpp, src/limitly.hh, src/lsp.cpp,
--     src/formatter.cpp, src/test_parser.cpp, src/error/debugger.cpp, src/error/debugger.hh,
--     src/error/message.hh): Command line, files and console output.
pub mod Prelude
pub mod Concurrency
pub mod Containers
pub mod Environment
pub mod Lir
pub mod Memory
pub mod Modules
pub mod Runtime
pub mod Symbols
pub mod Types
pub mod Vm

-- ===== src/Func/Bind.antt =====
-- `bindFirstFuncArgument` of ast/function.hpp: a function whose first argument is given, by a trampoline.
use whack.Prelude.{String, false, List, [], ◌∷◌, if◌then◌else◌, not, ◌&&◌}
use whack.Outcome.{Exec, ◌>>=◌, ◌>>◌, pure, fault}
use whack.Builder.{Builder, call, bit_cast, build, effect, finally}

module _ (B : Builder) where
  open B use {llvm, Val, Ir, type_of, asserts, has_nest, nest_first, get_or_insert_function}
  open llvm use {Ty, int_ty, void_ty, pointer_to, function_ty, is_pointer_ty}

  abbrev pub char_ptr : Ty
  char_ptr = pointer_to (int_ty 8)

  -- `module->getOrInsertFunction(name, type)`
  unfoldable pub runtime_function : String → Ty → List Ty → Exec Ir Val
  runtime_function name ret params s =
      let made = get_or_insert_function name (function_ty ret params false) s in pure made.0 made.1

  -- The function behind a trampoline, as a value of type `t`. It is an instruction, which the cast to
  -- a function is asserted not to be; unchecked, it is taken as it is.
  unfoldable pub trampoline : Val → Val → Ty → Val → Exec Ir Val
  trampoline f a t tramp = do
    init ← runtime_function "llvm.init.trampoline" void_ty (char_ptr ∷ char_ptr ∷ char_ptr ∷ [])
    target ← build B (bit_cast f char_ptr)
    env ← build B (bit_cast a char_ptr)
    build B (call init (tramp ∷ target ∷ env ∷ []))
    adjust ← runtime_function "llvm.adjust.trampoline" char_ptr (char_ptr ∷ [])
    adjusted ← build B (call adjust (tramp ∷ []))
    g ← build B (bit_cast adjusted (pointer_to t))
    if asserts then (λ s. fault) else pure g

  -- The memory of the trampoline is freed where it is left.
  unfoldable pub free_trampoline : Val → Exec Ir (Unit {0})
  free_trampoline tramp = runtime_function "__builtin_virtual_free" void_ty (char_ptr ∷ []) >>= λ f.
      build B (call f (tramp ∷ [])) >> pure tt

  -- The first argument is asserted to be a pointer.
  unfoldable pub assert_pointer : Val → Exec Ir (Unit {0})
  assert_pointer a = if asserts && not (is_pointer_ty (type_of a)) then (λ s. fault) else pure tt

  -- `bindFirstFuncArgument` of a function, its first argument and the type that is left.
  unfoldable pub bind_first_func_argument : Val → Val → Ty → Exec Ir Val
  bind_first_func_argument f a t = do
    assert_pointer a
    effect B (λ s. if has_nest s f then s else nest_first f s)
    alloc ← runtime_function "__builtin_virtual_alloc" char_ptr []
    tramp ← build B (call alloc [])
    finally B (trampoline f a t tramp) (free_trampoline tramp)

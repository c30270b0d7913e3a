-- ===== src/Compiler/Statements.antt =====
-- src/compiler/optimiser/ConstantFolder.cpp: the folding of statements and programs.
use simple_virtual_language.Base.{List, [], ◌∷◌}
use simple_virtual_language.Vm.Float.{FloatOps}
use simple_virtual_language.Compiler.Ast.{
  int_type_id, Expr, Iterable, range, range_step, sequence, Stm, var_decl, var_init, assignment,
  block_stm, if_then, if_else, while_stm, for_stm, return_stm, return_value, expr_stm, break_stm,
  continue_stm, Block, no_stm, stm,
}
use simple_virtual_language.Compiler.Constants.{Folded, folded, ◌>>=◌}
use simple_virtual_language.Compiler.Folder.{
  convert_literal_to_type, convert_if_constant, fold_expr, fold_postfixes,
}

-- `driver::OptimisationLevel`.
pub data OptimisationLevel : Type 0 where
  o0 default : OptimisationLevel

module _ (fl : FloatOps) where
  -- A bound of a range, which is converted whether it is a constant or not.
  unfoldable pub fold_bound : Expr → Folded Expr
  unfolding fold_expr convert_literal_to_type
  fold_bound e = do f ← fold_expr fl e; convert_literal_to_type fl int_type_id f.expr

  unfoldable pub fold_iterable : Iterable → Folded Iterable
  unfolding fold_bound
  fold_iterable (range start end) = do a ← fold_bound start; b ← fold_bound end; folded (range a b)
  fold_iterable (range_step start end step) = do
    a ← fold_bound start
    b ← fold_bound end
    c ← fold_bound step
    folded (range_step a b c)
  fold_iterable (sequence e) = folded (sequence e)

  unfoldable mutual
    unfolding fold_expr fold_iterable convert_literal_to_type

    pub fold_stm : Stm → Folded Stm
    fold_stm (var_decl name t) = folded (var_decl name t)
    fold_stm (var_init name t e) = do
      f ← fold_expr fl e
      converted ← convert_if_constant fl t f
      folded (var_init name t converted)
    fold_stm (assignment name t indices e) = do
      f ← fold_expr fl e
      converted ← convert_if_constant fl t f
      folded_indices ← fold_postfixes fl indices
      folded (assignment name t folded_indices converted)
    fold_stm (block_stm block) = do b ← fold_stm_block block; folded (block_stm b)
    fold_stm (if_then condition block) = do
      c ← fold_expr fl condition
      b ← fold_stm_block block
      folded (if_then c.expr b)
    fold_stm (if_else condition block other) = do
      c ← fold_expr fl condition
      b ← fold_stm_block block
      o ← fold_stm other
      folded (if_else c.expr b o)
    fold_stm (while_stm condition body) = do
      c ← fold_expr fl condition
      b ← fold_stm_block body
      folded (while_stm c.expr b)
    fold_stm (for_stm iterable body) = do
      i ← fold_iterable iterable
      b ← fold_stm_block body
      folded (for_stm i b)
    fold_stm return_stm = folded return_stm
    fold_stm (return_value t e) = do
      f ← fold_expr fl e
      converted ← convert_if_constant fl t f
      folded (return_value t converted)
    fold_stm (expr_stm e) = do f ← fold_expr fl e; folded (expr_stm f.expr)
    fold_stm break_stm = folded break_stm
    fold_stm continue_stm = folded continue_stm

    pub fold_stm_block : Block → Folded Block
    fold_stm_block no_stm = folded no_stm
    fold_stm_block (stm s rest) = do
      folded_s ← fold_stm s
      folded_rest ← fold_stm_block rest
      folded (stm folded_s folded_rest)

  unfoldable pub fold_bodies : List Block → Folded (List Block)
  unfolding fold_stm_block
  fold_bodies [] = folded []
  fold_bodies (b ∷ bs) = do body ← fold_stm_block b; rest ← fold_bodies bs; folded (body ∷ rest)

  -- `optimise`: the statements of the program, then the bodies of its functions.
  unfoldable pub optimise : Block × List Block → Folded (Block × List Block)
  unfolding fold_stm_block fold_bodies
  optimise (statements, functions) = do
    folded_statements ← fold_stm_block statements
    folded_functions ← fold_bodies functions
    folded (folded_statements, folded_functions)

  -- `Optimiser::optimiseProgram`, at either level.
  unfoldable pub optimise_program :
      OptimisationLevel → Block × List Block → Folded (Block × List Block)
  unfolding optimise
  optimise_program o0 program = folded program
  optimise_program default program = optimise program

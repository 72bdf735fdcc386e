-- ===== src/Policy/Laws.antt =====
-- What a policy decides, for the evaluator of expressions and for the statements of a document.
pub mod Conclusions
pub mod Expressions

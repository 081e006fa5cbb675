-- ===== src/Worker/Refinement.antt =====
-- The process of the worker refines the step relation of the tables.

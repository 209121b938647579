-- ===== src/Executor/Safe.antt =====
-- `execute_regex` of src/executor.c reads and writes nothing out of bounds, for a sound program.
use crex.Vm.Match.{Vm}

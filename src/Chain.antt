-- ===== src/Chain.antt =====
-- chain.go: the context of a rule chain, its tables and its routing. Objects that the source shares
-- by pointers are named: a node by its key in the table `nodes`, a rule chain context by its
-- address. `find` is the lookup in the pool of engines: the address of the root chain context of the
-- engine with an identifier, if there is such an engine and it is initialised. Locks only order
-- whole operations, so each operation is one step.
mod Load
mod Routing
unfoldable pub use Load.*
unfoldable pub use Routing.*

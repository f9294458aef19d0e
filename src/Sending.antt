-- ===== src/Sending.antt =====
-- src/sending.rs: what a node sends and where. A Send Location's transport and chain are objects of
-- other crates and are named by the Location; `configure`'s records keep the fields the code reads.
pub mod Defs

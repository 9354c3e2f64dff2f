-- ===== src/Avl.antt =====
-- The iv_avl trees of the ivykis library, which the program's tables are. The program reads the
-- root, left and right pointers of a tree itself; insertion and deletion are the library's, and
-- stand here as a parameter with their documented behaviour as laws.
pub mod Order
pub mod Insert
pub mod Walk
pub mod Replace
pub mod Interface
pub mod Spine
pub mod Middle

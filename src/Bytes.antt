-- ===== src/Bytes.antt =====
-- The byte buffers of bytes/.
pub mod RingBuffer
pub mod ByteBuffer
pub mod MsgBuf
